-- ===== src/ImageCache/Entry.antt =====
-- One stream of the cache: what its frames weigh, and what expiry leaves of them.
use infer_server.Base.{
  ℕ, ◌+◌, ◌%◌, ◌≡◌, String, List, [], ◌∷◌, ◌++◌, arith, Bool-cases, Option-cases, inl, inr,
  String_discrete,
}
use infer_server.Base.Int.{ℤ, ltb_ℤ}
use infer_server.Base.Word.{word, sub64, sub64_of_mod}
use infer_server.Base.Dict.{insert, sum_by, sum_by-insert, sum_by-insert_new}
use infer_server.Types.{CachedFrame, jpeg_size}
use infer_server.ImageCache.{ImageCache, StreamCache, find_cache, expire, get_or_create}

-- The JPEG bytes of some frames.
unfoldable pub bytes : List CachedFrame → ℕ
bytes [] = 0
bytes (f ∷ fs) = jpeg_size f + bytes fs

pub bytes-append : (fs gs : List CachedFrame) → bytes (fs ++ gs) ≡ bytes fs + bytes gs
unfolding bytes
bytes-append [] gs = omega arith
bytes-append (f ∷ fs) gs = omega (arith, bytes-append fs gs)

-- Expiry keeps both counters equal to what they count, modulo 2^64: `memory` counts this stream,
-- `total` this stream and `others`.
pub expire-counted :
    (threshold : ℤ) (fs : List CachedFrame) (memory total others : ℕ)
    → memory ≡ bytes fs % word
    → total ≡ (others + bytes fs) % word
    → ((expire threshold fs memory total).0.memory_bytes
        ≡ bytes (expire threshold fs memory total).0.frames % word)
      × ((expire threshold fs memory total).1
          ≡ (others + bytes (expire threshold fs memory total).0.frames) % word)
unfolding expire bytes
expire-counted threshold [] memory total others m t = (m, t)
expire-counted threshold (f ∷ fs) memory total others m t =
    elim (Bool-cases (ltb_ℤ f.timestamp_ms threshold)) [
      | inl old ↦
          rw (old, expire)
            (expire-counted threshold fs (sub64 memory (jpeg_size f)) (sub64 total (jpeg_size f))
              others (sub64_of_mod memory (bytes fs) (jpeg_size f) m)
              (sub64_of_mod total (others + bytes fs) (jpeg_size f) (omega arith)))
      | inr young ↦ rw (young, expire) (m, t)
    ]

-- A map's sum after a stream is set: the old stream's part goes, the new one's comes.
pub sum_by-get_or_create :
    (g : StreamCache → ℕ) (cam : String) (s : StreamCache) (c : ImageCache)
    → g (record { frames = []; memory_bytes = 0 }) ≡ 0
    → sum_by g (insert String_discrete cam s c.caches) + g (get_or_create cam c)
      ≡ sum_by g c.caches + g s
unfolding get_or_create
sum_by-get_or_create g cam s c h = elim (Option-cases (find_cache cam c)) [
  | inl e ↦
      rw (e, get_or_create) (omega (arith, sum_by-insert_new String_discrete g cam s c.caches e))
  | inr (w, e) ↦ rw (e, get_or_create) (sum_by-insert String_discrete g cam s c.caches e)
]
