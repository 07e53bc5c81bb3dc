-- ===== src/ConfigManager.antt =====
-- include/infer_server/common/config.h and src/common/config.cpp: the files of the configuration. Of
-- the file system and the JSON library only what the code relies on is known; `none` is an exception.
pub mod Saving
pub mod Tests
use infer_server.Base.{
  String, Bool, true, false, not, List, [], ◌∷◌, Option, none, some, map, ◌&&◌, ◌>>=◌,
  if◌then◌else◌, ite, String_discrete,
}
use infer_server.Base.Dict.{Dict, find, insert}
use infer_server.Types.{StreamConfig, ServerConfig}
use infer_server.Json.{JsonOps, get_list}
use infer_server.Json.Configs.{stream_to_json, stream_from_json, server_to_json, server_from_json}

-- The texts of the files, and the directories.
pub record Storage : Type 0 where
  pub texts : Dict String String
  pub directories : List String

-- `parent_path`, `exists` of a directory, whether a directory can be made (otherwise the library
-- throws), whether a file can be opened for writing, and what a file then holds of the text that is
-- written to it: a write that fails is not noticed.
pub record FileSystem : Type 0 where
  pub parent_path : String → String
  pub exists : String → Storage → Bool
  pub creates : String → Storage → Bool
  pub opens : String → Storage → Bool
  pub holds : String → String → Storage → String

-- The file of the streams.
unfoldable pub streams_json : {F : Type 0} (ops : JsonOps F) → List (StreamConfig F) → ops.J
unfolding stream_to_json
streams_json ops streams =
    ops.of_object (("streams", ops.of_array (map (stream_to_json ops) streams)) ∷ [])

module _ (fs : FileSystem) where
  unfoldable pub ensure_directory : String → Storage → Option Storage
  ensure_directory file_path s =
      let dir = fs.parent_path file_path in
      let made = record s { directories = dir ∷ s.directories } in
      ite (String_discrete dir "") (some s)
        (if fs.exists dir s then some s else if fs.creates dir s then some made else none)

  -- The file is truncated and written. The stream is not tested after the write.
  unfoldable pub write_file : String → String → Storage → Option Storage
  unfolding insert
  write_file path text s =
      if fs.opens path s
      then some (record s { texts = insert String_discrete path (fs.holds path text s) s.texts })
      else none

  unfoldable pub read_file : String → Storage → Option String
  unfolding find
  read_file path s = find String_discrete path s.texts

  module _ {F : Type 0} (ops : JsonOps F) (dump : ops.J → String)
      (parse : String → Option ops.J) where
    open ops use {J, member}

    unfoldable pub load_server_config : String → Storage → Option ServerConfig
    unfolding read_file server_from_json
    load_server_config path s = do text ← read_file path s; j ← parse text; server_from_json ops j

    unfoldable pub save_server_config : String → ServerConfig → Storage → Option Storage
    unfolding ensure_directory write_file server_to_json
    save_server_config path config s = do
      s' ← ensure_directory path s
      write_file path (dump (server_to_json ops config)) s'

    -- `j.at("streams")` throws if there is no such member.
    unfoldable pub load_streams : F → F → String → Storage → Option (List (StreamConfig F))
    unfolding read_file get_list stream_from_json
    load_streams conf nms path s = do
      text ← read_file path s
      j ← parse text
      found ← member "streams" j
      streams ← found
      get_list ops (stream_from_json ops conf nms) streams

    unfoldable pub save_streams : String → List (StreamConfig F) → Storage → Option Storage
    unfolding ensure_directory write_file streams_json
    save_streams path streams s = do
      s' ← ensure_directory path s
      write_file path (dump (streams_json ops streams)) s'
