-- ===== src/Clients/Reference.antt =====
-- examples/reference_client.py: the frames that it captures, what it logs of a reply, and the loop
-- that reconnects. What one connection comes to is a parameter.
pub mod Backoff
pub mod Replies
use locate_anything_setup.Prelude.{
  ℕ, ◌+◌, ◌*◌, ◌^◌, min, max, Bool, true, false, Option, none, some, List, [], ◌∷◌, length, ltb,
  leb, zero, suc, ◌&&◌, if◌then◌else◌,
}
use locate_anything_setup.Text.{Text, codes, equal}
use locate_anything_setup.Float.{Float}
use locate_anything_setup.Clients.Wire.{
  Scalar, absent, Pixels, missing, unlisted, sized, Item, no_object, object, ListField, no_key,
  no_list, items, Wire,
}
use locate_anything_setup.Clients.Smoke.{is_tag}

-- What `capture_thread` makes of the size of a frame.
unfoldable pub capture_size : (F : Type 0) ⦃fl : Float F⦄ → ℕ → ℕ × ℕ → ℕ × ℕ
capture_size F ⦃fl⦄ max_dim (w, h) =
    let scale = fl.div (fl.of_nat max_dim) (fl.of_nat (max w h)) in
    if ltb max_dim (max w h)
    then (fl.trunc (fl.mul (fl.of_nat w) scale), fl.trunc (fl.mul (fl.of_nat h) scale))
    else (w, h)

-- What `receiver` does with an object: a line of the log with a count, or an exception, which ends the
-- connection.
pub data Received : Type 0 where
  log_boxes log_points : ℕ → Received
  log_abstained log_error log_unrecognised : Received
  raised : Received

-- `b["bbox_px"]` raises nothing.
abbrev pub has_pixels : Pixels → Bool
has_pixels missing = false
has_pixels _ = true

module _ {F : Type 0} where
  -- `obj[key]` raises nothing.
  abbrev pub is_present : Scalar F → Bool
  is_present absent = false
  is_present _ = true

  -- `b["label"]` and `b["bbox_px"]` raise nothing.
  abbrev pub logs_box : Item F → Bool
  logs_box no_object = false
  logs_box (object label bbox_px point_px) = is_present label && has_pixels bbox_px

  abbrev pub logs_point : Item F → Bool
  logs_point no_object = false
  logs_point (object label bbox_px point_px) = is_present label && has_pixels point_px

  -- `for b in xs[:n]`
  unfoldable pub all_first : ℕ → (Item F → Bool) → List (Item F) → Bool
  all_first zero p xs = true
  all_first (suc n) p [] = true
  all_first (suc n) p (x ∷ xs) = p x && all_first n p xs

  -- The keys of a success that the log names.
  abbrev pub has_meta : Wire F → Bool
  has_meta w =
      is_present w.deviations_dropped
      && is_present w.model_output_truncated
      && is_present w.latency_ms

  -- A list of geometry; what has no length raises.
  unfoldable pub log_list : Bool → (ℕ → Received) → (Item F → Bool) → ListField F → Received
  unfolding all_first
  log_list meta log logs_item (items xs) =
      if meta && all_first 3 logs_item xs then log (length xs) else raised
  log_list meta log logs_item _ = raised

  unfoldable pub receive : Wire F → Received
  unfolding log_list is_tag
  receive w =
      if is_tag w.type_tag (codes "boxes")
      then log_list (has_meta w) log_boxes logs_box w.boxes_field
      else if is_tag w.type_tag (codes "points")
      then log_list (has_meta w) log_points logs_point w.points_field
      else if is_tag w.type_tag (codes "abstained")
      then (if is_present w.latency_ms then log_abstained else raised)
      else if is_tag w.type_tag (codes "error")
      then log_error
      else log_unrecognised

-- How `run_once` ends: it returns, the connection is closed normally or abnormally, or it raises
-- something else.
pub data RunEnd : Type 0 where
  clean closed_ok closed_error failed : RunEnd

pub record Options : Type 0 where
  pub reconnect_delay : ℕ
  pub max_consecutive_errors : ℕ
  pub no_reconnect : Bool

-- `consecutive_errors` behind a connection.
unfoldable pub next_errors : ℕ → RunEnd → ℕ
next_errors n clean = 0
next_errors n closed_ok = 0
next_errors n closed_error = n + 1
next_errors n failed = n + 1

-- The delay in half seconds, since `2 ** (n - 1)` is 0.5 where `n` is 0.
unfoldable pub delay : Options → ℕ → ℕ
delay opts n = min (2 * max opts.reconnect_delay 60) (opts.reconnect_delay * 2 ^ n)

-- `break`, `sys.exit(2)`, or a loop that goes on behind the connections given.
pub data LoopEnd : Type 0 where
  stopped aborted going_on : LoopEnd

-- The loop of `main_async` over what its connections come to, with the delays between them.
unfoldable pub reconnect : Options → ℕ → List RunEnd → List ℕ × LoopEnd
unfolding next_errors
reconnect opts n [] = ([], going_on)
reconnect opts n (e ∷ es) =
    let errors = next_errors n e in
    let (delays, end) = reconnect opts errors es in
    if opts.no_reconnect
    then ([], stopped)
    else if leb opts.max_consecutive_errors errors
    then ([], aborted)
    else (delay opts errors ∷ delays, end)
