-- ===== src/StreamManager/Labels.antt =====
-- `StreamManager::load_labels_file` and the label cache of a new stream. A character is its code.
use infer_server.Base.{
  ℕ, String, Bool, List, [], ◌∷◌, Option, none, some, ◌==◌, ◌||◌, if◌then◌else◌, ite,
  String_discrete,
}
use infer_server.Base.Dict.{Dict, contains, insert}
use infer_server.Types.{ModelConfig}

-- What the program reads of a file: its lines, if it opens, and the text of a line.
pub record Files : Type 0 where
  pub lines : String → Option (List (List ℕ))
  pub text : List ℕ → String

-- '\r', '\n' or ' '
unfoldable pub is_trailing : ℕ → Bool
is_trailing c = c == 13 || c == 10 || c == 32

-- `while (!line.empty() && ...) line.pop_back()`: from the end, as long as the characters go.
unfoldable pub strip : List ℕ → List ℕ
unfolding is_trailing
strip [] = []
strip (c ∷ cs) = elim (strip cs) [ [] ↦ if is_trailing c then [] else c ∷ [] | d ∷ ds ↦ c ∷ d ∷ ds ]

-- The loop over the lines: empty ones are passed over.
unfoldable pub labels_of_lines : (List ℕ → String) → List (List ℕ) → List String
unfolding strip
labels_of_lines text [] = []
labels_of_lines text (line ∷ lines) = elim (strip line) [
  | [] ↦ labels_of_lines text lines
  | c ∷ cs ↦ text (c ∷ cs) ∷ labels_of_lines text lines
]

unfoldable pub load_labels_file : Files → String → List String
unfolding labels_of_lines
load_labels_file files path =
    ite (String_discrete path "") []
      (elim (files.lines path) [ none ↦ [] | some lines ↦ labels_of_lines files.text lines ])

module _ {F : Type 0} where
  -- One model's labels, unless it names no file or they are there.
  unfoldable pub cache_labels :
      Files → ModelConfig F → Dict String (List String) → Dict String (List String)
  unfolding load_labels_file contains insert
  cache_labels files mc cache = ite (String_discrete mc.labels_file "") cache (
      if contains String_discrete mc.model_path cache
      then cache
      else insert String_discrete mc.model_path (load_labels_file files mc.labels_file) cache)

  unfoldable pub load_labels :
      Files → List (ModelConfig F) → Dict String (List String) → Dict String (List String)
  unfolding cache_labels
  load_labels files [] cache = cache
  load_labels files (mc ∷ models) cache = load_labels files models (cache_labels files mc cache)
