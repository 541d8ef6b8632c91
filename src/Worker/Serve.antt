-- ===== src/Worker/Serve.antt =====
-- worker/la_worker.py, `handle_connection`: the loop over the requests of one connection. JSON and
-- UTF-8 are a parameter, and so is what the world does during a request.
pub mod Laws
pub mod Replies
use locate_anything_setup.Prelude.{
  ℕ, zero, suc, ◌+◌, String, Bool, true, false, Option, none, some, List, [], ◌∷◌, if◌then◌else◌,
}
use locate_anything_setup.Text.{Text, codes, equal}
use locate_anything_setup.Float.{Float}
use locate_anything_setup.Outcome.{
  Value, str, no_str, Cause, Exception, value_error, runtime_error, out_of_memory, timed_out,
  connection_error, other_error, Outcome, ok, raise, frame_too_large, ◌>>=◌,
}
use locate_anything_setup.Framing.{
  Bytes, Read, frame, incomplete, too_large, read_frame, write_frame,
}
use locate_anything_setup.Worker.Reply.{
  Message, error_text, header_not_utf8, header_not_json, header_not_object, kind_unknown,
  cuda_out_of_memory, inference_timeout, unexpected, Reply, error, capabilities, info, frame_error,
}
use locate_anything_setup.Worker.Infer.{Header, get, Run, infer}

-- What `json.loads` makes of a text.
pub data Json : Type 0 where
  object : Header → Json
  no_object not_json : Json

pub record Codec (F : Type 0) : Type 0 where
  pub decode_utf8 : Bytes → Option Text
  pub loads : Text → Json
  pub dumps : Reply F → Bytes

-- What happens during one request: is the writer closing, does the run end in time and after how
-- long, and what do the run and the two queries do.
pub record Tick (F : Type 0) : Type 0 where
  pub closing : Bool
  pub in_time : Bool
  pub total_ms : F
  pub run : Run F
  pub query_capabilities : Outcome (Unit {0})
  pub query_info : Outcome (Unit {0})

-- One turn of the loop: go on behind a reply, leave by `break`, by an exception, or by `os._exit`
-- after a last reply that may have been written.
pub data Turn (F : Type 0) : Type 0 where
  replied : Reply F → Turn F
  broke : Turn F
  crashed : Exception → Turn F
  exited : ℕ → Option (Reply F) → Turn F

abbrev pub worker_restart_exit_code : ℕ
worker_restart_exit_code = 75

-- `header.get("frame_id")`, or the empty text where it is no `str`.
unfoldable pub request_id : Header → Text
unfolding get
request_id h = elim (get "frame_id" h) [ none ↦ [] | some v ↦ (elim v [ str t ↦ t | no_str ↦ [] ]) ]

-- How a connection ends.
pub data End : Type 0 where
  closed out_of_fuel : End
  failed : Exception → End
  exit : ℕ → End

module _ {F : Type 0} ⦃fl : Float F⦄ (codec : Codec F) where
  -- `write_frame` of a reply; the reply is what the peer then has.
  unfoldable pub send : Tick F → Outcome (Reply F) → Outcome (Reply F)
  unfolding write_frame
  send tick reply = do r ← reply; out ← write_frame tick.closing (codec.dumps r); ok r

  -- A reply that is written outside the inner `try`, or in a handler.
  unfoldable pub last_word : Tick F → Text → Message → Turn F
  last_word tick id m = elim (send tick (frame_error id "internal" m)) [
    | ok r ↦ replied r
    | raise e ↦ crashed e
  ]

  -- The last reply before the exit; a failure to write it is ignored.
  unfoldable pub exit_word : Tick F → Text → Message → Turn F
  exit_word tick id m = elim (send tick (frame_error id "internal" m)) [
    | ok r ↦ exited worker_restart_exit_code (some r)
    | raise e ↦ exited worker_restart_exit_code none
  ]

  -- The handlers of the inner `try`.
  unfoldable pub handle : Tick F → Text → Outcome (Reply F) → Turn F
  unfolding last_word exit_word
  handle tick id (ok r) = replied r
  handle tick id (raise out_of_memory) = exit_word tick id cuda_out_of_memory
  handle tick id (raise timed_out) = exit_word tick id inference_timeout
  handle tick id (raise (value_error c)) = last_word tick id (error_text c)
  handle tick id (raise (runtime_error c)) = last_word tick id (error_text c)
  handle tick id (raise connection_error) = last_word tick id unexpected
  handle tick id (raise (other_error c)) = last_word tick id unexpected

  -- The reply that a kind of request asks for.
  unfoldable pub route_kind : Tick F → Header → Bytes → Option Value → Outcome (Reply F)
  unfolding equal
  route_kind tick h payload (some (str k)) =
      if equal k (codes "capabilities")
      then (do u ← tick.query_capabilities; ok capabilities)
      else if equal k (codes "info")
      then (do u ← tick.query_info; ok info)
      else if equal k (codes "frame")
      then infer tick.run tick.in_time tick.total_ms h payload
      else frame_error (request_id h) "internal" kind_unknown
  route_kind tick h payload (some no_str) = frame_error (request_id h) "internal" kind_unknown
  route_kind tick h payload none = frame_error (request_id h) "internal" kind_unknown

  unfoldable pub route : Tick F → Header → Bytes → Outcome (Reply F)
  unfolding route_kind
  route tick h payload = route_kind tick h payload (get "kind" h)

  -- The request, once its header is parsed.
  unfoldable pub respond_json : Tick F → Bytes → Json → Turn F
  respond_json tick payload not_json = last_word tick [] header_not_json
  respond_json tick payload no_object = last_word tick [] header_not_object
  respond_json tick payload (object h) =
      handle tick (request_id h) (send tick (route tick h payload))

  -- A request whose two frames have been read.
  unfoldable pub respond : Tick F → Bytes → Bytes → Turn F
  unfolding respond_json
  respond tick header_bytes payload = elim (codec.decode_utf8 header_bytes) [
    | none ↦ last_word tick [] header_not_utf8
    | some t ↦ respond_json tick payload (codec.loads t)
  ]

  -- The payload's read: what cannot be read ends the loop.
  unfoldable pub after_header : Tick F → Bytes → Bytes → Read → Turn F × Bytes
  after_header tick s1 header_bytes (frame payload s2) = (respond tick header_bytes payload, s2)
  after_header tick s1 header_bytes incomplete = (broke, s1)
  after_header tick s1 header_bytes (too_large n) = (broke, s1)

  -- The header's read: one that is cut off ends the loop, one that is too large is not caught.
  unfoldable pub after_read : Tick F → Bytes → Read → Turn F × Bytes
  unfolding after_header
  after_read tick s incomplete = (broke, s)
  after_read tick s (too_large n) = (crashed (value_error frame_too_large), s)
  after_read tick s (frame header_bytes s1) = after_header tick s1 header_bytes (read_frame s1)

  unfoldable pub turn : Tick F → Bytes → Turn F × Bytes
  unfolding after_read
  turn tick s = after_read tick s (read_frame s)

  -- What a turn leads to, where `go_on` is the rest of the loop.
  unfoldable pub after_turn : (Bytes → List (Reply F) × End) → Turn F × Bytes → List (Reply F) × End
  after_turn go_on (replied r, rest) = let (rs, e) = go_on rest in (r ∷ rs, e)
  after_turn go_on (broke, rest) = ([], closed)
  after_turn go_on (crashed x, rest) = ([], failed x)
  after_turn go_on (exited c none, rest) = ([], exit c)
  after_turn go_on (exited c (some r), rest) = (r ∷ [], exit c)

  -- The loop, with the replies that were written; `ticks n` is what happens in turn n. The length of
  -- the stream is enough fuel (`Worker.Serve.Laws`).
  unfoldable pub serve : ℕ → ℕ → (ℕ → Tick F) → Bytes → List (Reply F) × End
  unfolding after_turn
  serve zero n ticks s = ([], out_of_fuel)
  serve (suc fuel) n ticks s = after_turn (serve fuel (n + 1) ticks) (turn (ticks n) s)
