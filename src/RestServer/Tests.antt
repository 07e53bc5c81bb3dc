-- ===== src/RestServer/Tests.antt =====
-- Runs of the handlers, and their theorems at concrete inputs.
use text.Mathlib.TextEquality.{eq_iff}
use infer_server.Base.{
  ℕ, ◌≡◌, ◌≢◌, refl, arith, [], ◌∷◌, Option, none, some, String, ite, String_discrete,
}
use infer_server.Samples.{devices, world, no_streams, camera, halves, model}
use infer_server.Base.Dict.{find}
use infer_server.Base.Int.{pos}
use infer_server.StreamManager.{StreamContext}
use infer_server.StreamManager.Manager.{StreamManager, find_stream}
use infer_server.StreamManager.Manager.History.{run, removes}
use infer_server.RestServer.{
  Request, ApiResponse, of_stream, status, cam, config, posts_stream, gets_stream,
}
use infer_server.RestServer.Handlers.{handle}
use infer_server.RestServer.Refusals.{IsAnswered, handle-IsAnswered}
use infer_server.RestServer.Streams.{answer, accepted, fresh_status, answer-posted}

abbrev uptime : StreamContext ℕ → ℕ
uptime ctx = 1

-- A stand-in for the exception of a text that is not UTF-8.
abbrev throws : ApiResponse ℕ → Option String
throws resp = ite (String_discrete resp.message "�") (some "invalid UTF-8 byte") none

printed : throws (record { code = 0; message = of_stream "a" " added"; data_ = cam "a" }) ≡ none
unfolding String_discrete
printed = refl

shown :
    throws (record {
      code = 0;
      message = "success";
      data_ = status (fresh_status halves devices world throws uptime 1 none (λ n. n) (camera "a"));
    })
    ≡ none
unfolding String_discrete
shown = refl

abbrev posted : Request ℕ
posted = posts_stream (config (camera "a"))

handle-IsAnswered_example :
    IsAnswered no_streams (run devices ((world, removes "a") ∷ []) no_streams) (
      handle halves devices world throws uptime 1 none
        (λ n. n)
        ((world, removes "a") ∷ [])
        posted
        no_streams)
handle-IsAnswered_example =
    handle-IsAnswered halves devices world throws uptime 1 none (λ n. n) ((world, removes "a") ∷ [])
      posted no_streams printed

abbrev after_post : StreamManager ℕ
after_post = (answer halves devices world throws uptime 1 none (λ n. n) posted no_streams).0

named : (camera "a").cam_id ≢ ""
named e = ground (arith, eq_iff "a" "", e)

addressed : (camera "a").rtsp_url ≢ ""
addressed e = ground (arith, eq_iff "rtsp://camera" "", e)

new : find_stream "a" no_streams ≡ none
unfolding find_stream find
new = refl

answer-posted_example :
    ((answer halves devices world throws uptime 1 none (λ n. n) posted no_streams).1
      ≡ accepted halves devices world throws (of_stream "a" " added") (cam "a"))
    × ((answer halves devices world throws uptime 1 none (λ n. n) (gets_stream "a") after_post).1
        ≡ accepted halves devices world throws "success"
            (status (fresh_status halves devices world throws uptime 1 none (λ n. n) (camera "a"))))
    × ((fresh_status halves devices world throws uptime 1 none (λ n. n) (camera "a")).cam_id ≡ "a")
    × ((fresh_status halves devices world throws uptime 1 none (λ n. n) (camera "a")).rtsp_url
        ≡ "rtsp://camera")
    × ((fresh_status halves devices world throws uptime 1 none (λ n. n) (camera "a")).frame_skip
        ≡ pos 2)
    × ((fresh_status halves devices world throws uptime 1 none (λ n. n) (camera "a")).models
        ≡ model "people" 640 ∷ model "smoke" 0 ∷ [])
    × ((fresh_status halves devices world throws uptime 1 none (λ n. n) (camera "a")).status
        ≡ "starting")
    × ((fresh_status halves devices world throws uptime 1 none (λ n. n) (camera "a")).decoded_frames
        ≡ 0)
answer-posted_example =
    answer-posted halves devices world throws uptime 1 none (λ n. n) (camera "a") no_streams named
      addressed new printed shown
