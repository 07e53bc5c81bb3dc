-- ===== src/ZmqPublisher/Tests.antt =====
-- Two results of which the socket takes the second.
use infer_server.Base.{
  ◌≡◌, ap, String, ℕ, ◌%◌, Bool, true, false, List, [], ◌∷◌, Option, none, some, length, arith,
  String_discrete,
}
use infer_server.Base.Int.{pos}
use infer_server.Base.Word.{word}
use infer_server.Types.{FrameResult}
use infer_server.Json.Tree.{Json, text, fields, member, tree, tree-laws}
use infer_server.Json.Results.{frame_result_to_json}
use infer_server.ZmqPublisher.{make, init}
use infer_server.ZmqPublisher.Messages.{
  message_of, publish_all, taken, read_each, IsReadable, publish_all-taken,
}

abbrev result : String → FrameResult ℕ
result name = record {
  cam_id = name;
  rtsp_url = "rtsp://camera";
  frame_id = 7;
  timestamp_ms = pos 1000;
  pts = pos 40;
  original_width = pos 1920;
  original_height = pos 1080;
  results =
      record {
        task_name = "people";
        model_path = "people.rknn";
        inference_time_ms = 12;
        detections =
            record {
              class_id = pos 0;
              class_name = "person";
              confidence = 1;
              bbox = record { x1 = 1; y1 = 2; x2 = 3; y2 = 4 };
            }
            ∷ [];
      }
      ∷ [];
}

-- The text tells the camera.
abbrev dump : Json → Option String
dump j = elim (member "cam_id" j) [ some (text s) ↦ some s | _ ↦ none ]

abbrev parse : String → Option Json
parse s = some (frame_result_to_json tree (result s))

abbrev published : List (Bool × FrameResult ℕ)
published = (false, result "a") ∷ (true, result "b") ∷ []

same : {s m : String} → some s ≡ some m → m ≡ s
same e = cc

result-IsReadable : (s : String) → IsReadable tree dump parse 0 (result s)
unfolding message_of frame_result_to_json fields member String_discrete
result-IsReadable s =
    (omega arith, λ m e. ap (λ s. some (frame_result_to_json tree (result s))) (same e))

publish_all-taken_example :
    (read_each tree dump parse 0
        (publish_all tree dump published (init true (make "tcp://*:5555")).0).sent
      ≡ some (taken tree dump published))
    × ((publish_all tree dump published (init true (make "tcp://*:5555")).0).published_count % word
        ≡ length (taken tree dump published) % word)
publish_all-taken_example =
    publish_all-taken tree dump parse 0 tree-laws "tcp://*:5555" published
      (result-IsReadable "a", (result-IsReadable "b", tt))
