-- ===== src/ConfigManager/Saving.antt =====
-- A configuration that was saved is loaded again.
use infer_server.Base.{
  ◌≡◌, ◌≢◌, refl, sym, ◌∙◌, ap, subst, String, Bool, true, false, List, ◌∷◌, Option, none, some,
  ◌>>=◌, String_discrete, if◌then◌else◌, ite,
}
use infer_server.Base.Dict.{find, find-insert_self, find-insert_ne}
use infer_server.Types.{StreamConfig, ServerConfig}
use infer_server.Json.{JsonOps, JsonLaws}
use infer_server.Json.Configs.{stream_to_json, stream_from_json, server_to_json}
use infer_server.Json.RoundTrip.{
  stream_from_json-stream_to_json, server_from_json-server_to_json, get_list-map,
}
use infer_server.ConfigManager.{
  Storage, FileSystem, ensure_directory, write_file, read_file, load_server_config,
  save_server_config, load_streams, save_streams, streams_json,
}

some_eq : {A : Type 0} {x y : A} → some x ≡ some y → x ≡ y
some_eq e = cc

-- A value that depends on a condition, and is there.
if-some : {A : Type 0} {x y : A} (b : Bool) → (if b then some x else none) ≡ some y → x ≡ y
if-some true e = some_eq e
if-some false e = cc

module _ (fs : FileSystem) where
  -- Every write to this path is complete.
  abbrev pub Writes : String → Type 0
  Writes path = (text : String) (s : Storage) → fs.holds path text s ≡ text

  -- What was written is in the file, and the other files are what they were.
  read_file-write_file :
      (path text : String) (s s' : Storage)
      → Writes path
      → write_file fs path text s ≡ some s'
      → read_file fs path s' ≡ some text
        × ((other : String) → path ≢ other → read_file fs other s' ≡ read_file fs other s)
  unfolding write_file read_file
  read_file-write_file path text s s' whole e =
      subst
        (λ t.
          find String_discrete path t.texts ≡ some text
          × ((other : String)
              → path ≢ other
              → find String_discrete other t.texts ≡ find String_discrete other s.texts))
        (if-some (fs.opens path s) e)
        (
          find-insert_self String_discrete path (fs.holds path text s) s.texts
              ∙ ap some (whole text s),
          λ other n. find-insert_ne String_discrete path other (fs.holds path text s) s.texts n,
        )

  -- Making the directory changes no file.
  ensure_directory-texts :
      (path : String) (s s' : Storage) → ensure_directory fs path s ≡ some s' → s'.texts ≡ s.texts
  unfolding ensure_directory
  ensure_directory-texts path s s' =
      go (String_discrete (fs.parent_path path) "") (fs.exists (fs.parent_path path) s)
    where
      go :
          (d : Dec (fs.parent_path path ≡ "")) (b : Bool)
          → ite d (some s) (
              if b
              then some s
              else if fs.creates (fs.parent_path path) s
              then some (record s { directories = fs.parent_path path ∷ s.directories })
              else none)
            ≡ some s'
          → s'.texts ≡ s.texts
      go (yes _) b e = ap (λ t. t.texts) (sym (some_eq e))
      go (no _) true e = ap (λ t. t.texts) (sym (some_eq e))
      go (no _) false e = ap (λ t. t.texts) (sym (if-some (fs.creates (fs.parent_path path) s) e))

  -- The two steps of a save.
  read_file-save :
      (path text : String) (s s' : Storage)
      → Writes path
      → (ensure_directory fs path s >>= (λ t. write_file fs path text t)) ≡ some s'
      → read_file fs path s' ≡ some text
        × ((other : String) → path ≢ other → read_file fs other s' ≡ read_file fs other s)
  unfolding read_file
  read_file-save path text s s' whole = go (ensure_directory fs path s) refl
    where
      go :
          (o : Option Storage)
          → ensure_directory fs path s ≡ o
          → (o >>= (λ t. write_file fs path text t)) ≡ some s'
          → read_file fs path s' ≡ some text
            × ((other : String) → path ≢ other → read_file fs other s' ≡ read_file fs other s)
      go none e h = cc
      go (some t) e h =
          let both = read_file-write_file path text t s' whole h in
          (
            both.0,
            λ other n.
                both.1 other n
                ∙ ap (λ m. find String_discrete other m) (ensure_directory-texts path s t e),
          )

  module _ {F : Type 0} (ops : JsonOps F) (laws : JsonLaws ops) where
    open ops use {J, of_array}

    module _ (dump : J → String) (parse : String → Option J) where
      -- If the writes to the path are complete, and the text of a list of streams is parsed as the
      -- list it was made of, then a list that save_streams has saved is what load_streams loads from
      -- the same path, and every other file is what it was.
      pub load_streams-save_streams :
          (conf nms : F) (path : String) (streams : List (StreamConfig F)) (s s' : Storage)
          → Writes path
          → parse (dump (streams_json ops streams)) ≡ some (streams_json ops streams)
          → save_streams fs ops dump parse path streams s ≡ some s'
          → load_streams fs ops dump parse conf nms path s' ≡ some streams
            × ((other : String) → path ≢ other → read_file fs other s' ≡ read_file fs other s)
      unfolding save_streams load_streams streams_json find String_discrete
      load_streams-save_streams conf nms path streams s s' whole p h =
          let saved = read_file-save path _ s s' whole h in
          (
            rw (saved.0, p, laws.object_law "streams" _)
                (get_list-map ops laws (stream_to_json ops) (stream_from_json ops conf nms)
                  (stream_from_json-stream_to_json ops laws conf nms) streams),
            saved.1,
          )

      -- The same for the configuration of the server.
      pub load_server_config-save_server_config :
          (path : String) (config : ServerConfig) (s s' : Storage)
          → Writes path
          → parse (dump (server_to_json ops config)) ≡ some (server_to_json ops config)
          → save_server_config fs ops dump parse path config s ≡ some s'
          → load_server_config fs ops dump parse path s' ≡ some config
      unfolding save_server_config load_server_config
      load_server_config-save_server_config path config s s' whole p h =
          rw ((read_file-save path _ s s' whole h).0, p)
            (server_from_json-server_to_json ops laws config)
