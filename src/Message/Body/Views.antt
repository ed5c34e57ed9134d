-- ===== src/Message/Body/Views.antt =====
-- The body of a response as one of three things.
use justhttp.Base.{
  ℕ, ◌≡◌, refl, sym, ap, ◌∙◌, Bool, Option, none, some, List, [], ◌∷◌, ◌++◌, append_assoc, arith,
  Bytes,
}
use justhttp.Message.Body.{
  BodyStream, ResponseBody, text_of, or_empty, set_body, append_body, reset_body, set_body_raw,
  set_body_stream, body_of, swap_body,
}

-- A body is held in the buffer, raw, or a stream.
pub data View : Type 0 where
  held : Bytes → View
  raw : Bytes → View
  streamed : BodyStream → View

pub data Operation : Type 0 where
  setting : Bytes → Operation
  appending : Bytes → Operation
  resetting : Operation
  setting_raw : Bytes → Operation
  setting_stream : BodyStream → Operation
  reading : Operation
  swapping : Bytes → Operation

-- What an operation makes of a view, and what it returns.
abbrev pub view_step : View → Operation → View × Bytes
view_step v (setting b) = (held b, [])
view_step (held x) (appending p) = (held (x ++ p), [])
view_step (raw x) (appending p) = (held p, [])
view_step (streamed s) (appending p) = (held p, [])
view_step v resetting = (held [], [])
view_step v (setting_raw b) = (raw b, [])
view_step v (setting_stream s) = (streamed s, [])
view_step (held x) reading = (held x, x)
view_step (raw x) reading = (raw x, x)
view_step (streamed s) reading = (held (text_of s.answer), text_of s.answer)
view_step (held x) (swapping b) = (held b, x)
view_step (raw x) (swapping b) = (held b, [])
view_step (streamed s) (swapping b) = (held b, text_of s.answer)

-- The streams that have been set and are not the body any more.
abbrev pub view_closed : View → Operation → List ℕ
view_closed (held x) o = []
view_closed (raw x) o = []
view_closed (streamed s) o = s.number ∷ []

abbrev pub step : ResponseBody → Operation → ResponseBody × Bytes
step r (setting b) = (set_body r b, [])
step r (appending p) = (append_body r p, [])
step r resetting = (reset_body r, [])
step r (setting_raw b) = (set_body_raw r b, [])
step r (setting_stream s) = (set_body_stream r s, [])
step r reading = body_of r
step r (swapping b) = swap_body r b

-- The fields that stand for a view.
abbrev pub Shows : Option Bytes → Option Bytes → Option BodyStream → View → Type 0
Shows body body_raw none (held x) = (body_raw ≡ none) × (or_empty body ≡ x)
Shows body body_raw none (raw x) = (body_raw ≡ some x) × (or_empty body ≡ [])
Shows body body_raw none (streamed s) = ⊥
Shows body body_raw (some t) (held x) = ⊥
Shows body body_raw (some t) (raw x) = ⊥
Shows body body_raw (some t) (streamed s) = (body_raw ≡ none) × (or_empty body ≡ []) × (t ≡ s)

abbrev pub ShowsView : ResponseBody → View → Type 0
ShowsView r v = Shows r.body r.body_raw r.body_stream v

-- A step shows the view's step, returns what it does, and closes the stream that it takes away.
abbrev pub Follows : ResponseBody → View → Operation → Type 0
Follows r v o =
    ShowsView (step r o).0 (view_step v o).0
    × ((step r o).1 ≡ (view_step v o).1)
    × ((step r o).0.closed ≡ view_closed v o ++ r.closed)

abbrev body_with : Option Bytes → Option Bytes → Option BodyStream → Bool → List ℕ → ResponseBody
body_with body body_raw body_stream keep closed = record {
  body = body;
  body_raw = body_raw;
  body_stream = body_stream;
  keep_body_buffer = keep;
  closed = closed;
}

fields_follow :
    (body body_raw : Option Bytes) (body_stream : Option BodyStream) (keep : Bool) (closed : List ℕ)
    (v : View) (o : Operation)
    → Shows body body_raw body_stream v
    → Follows (body_with body body_raw body_stream keep closed) v o
unfolding set_body append_body reset_body set_body_raw set_body_stream body_of swap_body
fields_follow body body_raw none keep closed (streamed s) o shows = absurd shows
fields_follow body body_raw (some t) keep closed (held x) o shows = absurd shows
fields_follow body body_raw (some t) keep closed (raw x) o shows = absurd shows
fields_follow body (some r) none keep closed (held x) o shows = cc
fields_follow none none none keep closed (held x) (setting b) shows = ground arith
fields_follow none none none keep closed (held x) o shows = ground arith
fields_follow (some y) none none keep closed (held x) (setting b) shows = ground arith
fields_follow (some y) none none keep closed (held x) o shows = ground arith
fields_follow body none none keep closed (raw x) o shows = cc
fields_follow none (some r) none keep closed (raw x) (setting b) shows = ground arith
fields_follow none (some r) none keep closed (raw x) o shows = ground arith
fields_follow (some y) (some r) none keep closed (raw x) (setting b) shows = ground arith
fields_follow (some y) (some r) none keep closed (raw x) o shows = ground arith
fields_follow body (some r) (some t) keep closed (streamed s) o shows = cc
fields_follow none none (some t) keep closed (streamed s) (setting b) shows = ground arith
fields_follow none none (some t) keep closed (streamed s) o shows = ground arith
fields_follow (some y) none (some t) keep closed (streamed s) (setting b) shows = ground arith
fields_follow (some y) none (some t) keep closed (streamed s) o shows = ground arith

-- A run of operations, with what they return.
abbrev pub run : ResponseBody → List Operation → ResponseBody × List Bytes
run r [] = (r, [])
run r (o ∷ os) = let (r', out) = step r o in let (last, outs) = run r' os in (last, out ∷ outs)

abbrev pub view_run : View → List Operation → View × List Bytes × List ℕ
view_run v [] = (v, [], [])
view_run v (o ∷ os) =
    let (v', out) = view_step v o in
    let (last, outs, closed) = view_run v' os in (last, out ∷ outs, closed ++ view_closed v o)

step-Follows : (r : ResponseBody) (v : View) (o : Operation) → ShowsView r v → Follows r v o
step-Follows r v o shows =
    fields_follow r.body r.body_raw r.body_stream r.keep_body_buffer r.closed v o shows

-- A run of the methods that set, append to, reset, read and swap the body returns what the same run
-- on one body of one kind does, ends with the same body, and closes every stream that it takes away
-- once, in this order.
pub run-view_run :
    (r : ResponseBody) (v : View) (os : List Operation)
    → ShowsView r v
    → ShowsView (run r os).0 (view_run v os).0
      × ((run r os).1 ≡ (view_run v os).1)
      × ((run r os).0.closed ≡ (view_run v os).2 ++ r.closed)
run-view_run r v [] shows = (shows, refl, refl)
run-view_run r v (o ∷ os) shows =
    let (shown, out, gone) = step-Follows r v o shows in
    let (end, outs, all_gone) = run-view_run (step r o).0 (view_step v o).0 os shown in
    (
      end,
      ap (λ b. b ∷ (run (step r o).0 os).1) out ∙ ap (λ bs. (view_step v o).1 ∷ bs) outs,
      all_gone
          ∙ ap (λ c. (view_run (view_step v o).0 os).2 ++ c) gone
          ∙ sym (append_assoc (view_run (view_step v o).0 os).2 (view_closed v o) r.closed),
    )
