-- ===== src/Json.antt =====
-- The JSON macros of the structs in include/infer_server/common/types.h and
-- include/infer_server/common/config.h, over an interface to the JSON library.
pub mod Configs
pub mod Results
pub mod RoundTrip
pub mod Status
pub mod Tree
use infer_server.Base.{String, List, [], ◌∷◌, Option, none, some, ◌≡◌, map, ◌>>=◌, String_discrete}
use infer_server.Base.Int.{ℤ}
use infer_server.Base.Dict.{Dict, find}

-- What the macros use of `nlohmann::json`: a value of each kind, and what reading one gives, `none`
-- being an exception. `member` finds a key in an object, and throws for another value.
pub record JsonOps (F : Type 0) : Type 1 where
  pub J : Type 0
  pub of_string : String → J
  pub to_string : J → Option String
  pub of_int : ℤ → J
  pub to_int : J → Option ℤ
  pub of_float : F → J
  pub to_float : J → Option F
  pub of_array : List J → J
  pub to_array : J → Option (List J)
  pub of_object : Dict String J → J
  pub member : String → J → Option (Option J)

-- What is written can be read again.
pub record JsonLaws {F : Type 0} (ops : JsonOps F) : Type 0 where
  pub string_law : (s : String) → ops.to_string (ops.of_string s) ≡ some s
  pub int_law : (n : ℤ) → ops.to_int (ops.of_int n) ≡ some n
  pub float_law : (x : F) → ops.to_float (ops.of_float x) ≡ some x
  pub array_law : (js : List ops.J) → ops.to_array (ops.of_array js) ≡ some js
  pub object_law :
      (k : String) (fields : Dict String ops.J)
      → ops.member k (ops.of_object fields) ≡ some (find String_discrete k fields)

module _ {F : Type 0} (ops : JsonOps F) where
  open ops use {J, member, to_array}

  -- `j.value(key, default)`
  unfoldable pub value : {A : Type 0} → (J → Option A) → String → A → J → Option A
  value get key default j = do
    found ← member key j
    elim found [ none ↦ some default | some v ↦ get v ]

  -- `get` of a vector.
  unfoldable pub get_each : {A : Type 0} → (J → Option A) → List J → Option (List A)
  get_each get [] = some []
  get_each get (j ∷ js) = do x ← get j; xs ← get_each get js; some (x ∷ xs)

  unfoldable pub get_list : {A : Type 0} → (J → Option A) → J → Option (List A)
  unfolding get_each
  get_list get j = do js ← to_array j; get_each get js
