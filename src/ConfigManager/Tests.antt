-- ===== src/ConfigManager/Tests.antt =====
-- A disk without directories, and two streams that are saved and loaded.
use infer_server.Base.{
  ◌≡◌, ◌≢◌, refl, String, true, false, List, [], ◌∷◌, Option, some, ℕ, String_discrete,
}
use infer_server.Samples.{camera}
use infer_server.Types.{StreamConfig}
use infer_server.Json.Tree.{Json, tree, tree-laws}
use infer_server.ConfigManager.{
  Storage, FileSystem, ensure_directory, write_file, read_file, load_streams, save_streams,
  streams_json,
}
use infer_server.ConfigManager.Saving.{load_streams-save_streams}

-- A file can be written when its directory is there.
abbrev disk : FileSystem
disk = record {
  parent_path = λ path. "conf";
  exists = λ dir s. elim s.directories [ [] ↦ false | _ ∷ _ ↦ true ];
  creates = λ dir s. true;
  opens = λ path s. elim s.directories [ [] ↦ false | _ ∷ _ ↦ true ];
  holds = λ path text s. text;
}

abbrev two_streams : List (StreamConfig ℕ)
two_streams = camera "a" ∷ camera "b" ∷ []

abbrev dump : Json → String
dump j = "the streams"

abbrev parse : String → Option Json
parse s = some (streams_json tree two_streams)

abbrev before : Storage
before = record { texts = ("conf/server.json", "the server") ∷ []; directories = [] }

abbrev after : Storage
after = record {
  texts = ("conf/server.json", "the server") ∷ ("conf/streams.json", "the streams") ∷ [];
  directories = "conf" ∷ [];
}

save_streams-run :
    save_streams disk tree dump parse "conf/streams.json" two_streams before ≡ some after
unfolding save_streams ensure_directory write_file String_discrete
save_streams-run = refl

load_streams-save_streams_example :
    (load_streams disk tree dump parse 0 0 "conf/streams.json" after ≡ some two_streams)
    × ((other : String)
        → "conf/streams.json" ≢ other
        → read_file disk other after ≡ read_file disk other before)
load_streams-save_streams_example =
    load_streams-save_streams disk tree tree-laws dump parse 0 0 "conf/streams.json" two_streams
      before after (λ text s. refl) refl save_streams-run
