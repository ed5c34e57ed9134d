-- ===== src/Tests/Messages.antt =====
-- The body of a response: http.go.
use justhttp.Base.{◌≡◌, refl, false, none, List, [], ◌∷◌, ◌++◌, codes, ok}
use justhttp.Message.Body.{BodyStream, ResponseBody, set_body_raw, append_body, body_of}
use justhttp.Message.Body.Views.{
  Operation, held, setting, appending, setting_raw, setting_stream, reading, swapping, ShowsView,
  run, view_run, run-view_run,
}

abbrev empty_body : ResponseBody
empty_body = record {
  body = none;
  body_raw = none;
  body_stream = none;
  keep_body_buffer = false;
  closed = [];
}

abbrev stream : BodyStream
stream = record { number = 7; answer = ok (codes "stream") }

abbrev operations : List Operation
operations =
    setting (codes "ab")
    ∷ appending (codes "c")
    ∷ reading
    ∷ setting_stream stream
    ∷ reading
    ∷ setting_raw (codes "raw")
    ∷ swapping (codes "z")
    ∷ []

run-view_run_example :
    ShowsView (run empty_body operations).0 (view_run (held []) operations).0
    × ((run empty_body operations).1 ≡ (view_run (held []) operations).1)
    × ((run empty_body operations).0.closed ≡ (view_run (held []) operations).2 ++ [])
run-view_run_example = run-view_run empty_body (held []) operations (refl, refl)

-- The raw body is lost to what is appended to it.
append_body_raw :
    (body_of (append_body (set_body_raw empty_body (codes "raw")) (codes "x"))).1 ≡ codes "x"
unfolding body_of append_body set_body_raw
append_body_raw = refl
