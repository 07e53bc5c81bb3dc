-- ===== src/Json/Tree.antt =====
-- A JSON value as a tree, with which tests run.
use infer_server.Base.{
  ◌≡◌, refl, ap, String, List, [], ◌∷◌, Option, none, some, ite, ℕ, String_discrete,
}
use infer_server.Base.Int.{ℤ}
use infer_server.Base.Dict.{Dict, find}
use infer_server.Json.{JsonOps, JsonLaws}

pub data Json : Type 0 where
  text : String → Json
  number : ℤ → Json
  float : ℕ → Json
  empty : Json
  item : Json → Json → Json
  object : Json
  field : String → Json → Json → Json

unfoldable pub array : List Json → Json
array [] = empty
array (j ∷ js) = item j (array js)

unfoldable pub items : Json → List Json
items (item j rest) = j ∷ items rest
items _ = []

unfoldable pub fields : Dict String Json → Json
fields [] = object
fields ((k, j) ∷ m) = field k j (fields m)

unfoldable pub member : String → Json → Option Json
member k (field i j rest) = ite (String_discrete i k) (some j) (member k rest)
member k _ = none

abbrev pub tree : JsonOps ℕ
tree = record {
  J = Json;
  of_string = text;
  to_string = λ j. elim j [ text s ↦ some s | _ ↦ none ];
  of_int = number;
  to_int = λ j. elim j [ number n ↦ some n | _ ↦ none ];
  of_float = float;
  to_float = λ j. elim j [ float x ↦ some x | _ ↦ none ];
  of_array = array;
  to_array = λ j. some (items j);
  of_object = fields;
  member = λ k j. some (member k j);
}

items-array : (js : List Json) → items (array js) ≡ js
unfolding items array
items-array [] = refl
items-array (j ∷ js) = ap (λ rest. j ∷ rest) (items-array js)

member-fields : (k : String) (m : Dict String Json) → member k (fields m) ≡ find String_discrete k m
unfolding member fields find
member-fields k [] = refl
member-fields k ((i, j) ∷ m) = ap (λ o. ite (String_discrete i k) (some j) o) (member-fields k m)

pub tree-laws : JsonLaws tree
tree-laws = record {
  string_law = λ s. refl;
  int_law = λ n. refl;
  float_law = λ x. refl;
  array_law = λ js. ap some (items-array js);
  object_law = λ k m. ap some (member-fields k m);
}
