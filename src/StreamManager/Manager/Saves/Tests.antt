-- ===== src/StreamManager/Manager/Saves/Tests.antt =====
-- Saves that overlap: in the order of their snapshots, and one that overtakes another.
use infer_server.Base.{◌≡◌, refl, true, ℕ, List, [], ◌∷◌, String_discrete}
use infer_server.Base.Dict.{find, insert}
use infer_server.Samples.{devices, world, camera, no_streams}
use infer_server.StreamManager.Manager.{
  add_stream, save_configs, get_all_configs, find_stream, launch, new_context,
}
use infer_server.StreamManager.Manager.History.{adds, decodes, step}
use infer_server.StreamManager.Manager.Saves.{
  Saves, Turn, acts, snaps, writes, pick, turn, run_turns,
}

-- Two threads have each added a stream; the first has taken its snapshot before the second added.
abbrev overlapping : Saves ℕ
overlapping =
    run_turns devices (acts world (adds (camera "a")) ∷ snaps ∷ acts world (adds (camera "b")) ∷ [])
      (record { manager = no_streams; snapshots = [] })

abbrev in_order : List (Turn ℕ)
in_order = writes 0 true ∷ acts world (decodes "a") ∷ writes 0 true ∷ []

abbrev overtaken : Saves ℕ
overtaken = run_turns devices (writes 1 true ∷ writes 0 true ∷ []) (turn devices snaps overlapping)

-- The second snapshot is written before the first: the stream "b" is missing in the file.
overtaken-run : overtaken.manager.saved ≡ camera "a" ∷ []
unfolding run_turns turn pick step add_stream save_configs get_all_configs find_stream launch
    new_context find insert String_discrete
overtaken-run = refl
