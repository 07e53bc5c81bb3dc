-- ===== src/Base/Word.antt =====
-- 64-bit unsigned counters (`size_t`, `uint64_t`): sums and differences modulo 2^64.
use infer_server.Base.Int.{ℤ, pos, negsuc}
use infer_server.Base.{ℕ, ◌+◌, ◌-◌, ◌*◌, ◌%◌, ◌^◌, ◌≡◌, arith}

abbrev pub word : ℕ
word = 2 ^ 64

unfoldable pub add64 : ℕ → ℕ → ℕ
add64 a b = (a + b) % word

-- `-` on ℕ stops at 0, so the modulus is added first.
unfoldable pub sub64 : ℕ → ℕ → ℕ
sub64 a b = (a + word - b % word) % word

-- `static_cast<size_t>` of an `int`.
unfoldable pub size_of_int : ℤ → ℕ
size_of_int (pos n) = n % word
size_of_int (negsuc n) = word - 1 - n % word

-- A product of two `size_t`.
unfoldable pub mul64 : ℕ → ℕ → ℕ
mul64 a b = (a * b) % word

pub add64-mod : (a b : ℕ) → add64 (a % word) b ≡ (a + b) % word
unfolding add64
add64-mod a b = omega arith

-- Taking off a part of what is counted leaves the count of the rest.
pub sub64_of_mod : (t a b : ℕ) → t ≡ (b + a) % word → sub64 t b ≡ a % word
unfolding sub64
sub64_of_mod t a b h = omega arith

-- Taking off what was put on gives back the counter.
pub sub64-add64 : (a b : ℕ) → sub64 (add64 a b) b ≡ a % word
unfolding add64 sub64
sub64-add64 a b = omega arith
