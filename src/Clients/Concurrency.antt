-- ===== src/Clients/Concurrency.antt =====
-- scripts/lib/concurrency_smoke_client.py: what one client records of its frames. What arrives for
-- a frame, and when, is a parameter.
pub mod Report
pub mod Frames
pub mod Passed
use locate_anything_setup.Prelude.{
  ℕ, zero, suc, ◌+◌, ◌-◌, ◌/◌, ◌%◌, Bool, true, false, not, ◌&&◌, ◌||◌, Option, none, some, List,
  [], ◌∷◌, ◌++◌, length, ltb, ◌==◌, if◌then◌else◌,
}
use locate_anything_setup.Text.{Text, codes, is_empty}
use locate_anything_setup.Float.{Float}
use locate_anything_setup.Clients.Wire.{
  Scalar, absent, text, integer, real, boolean, array, dictionary, Item, ListField, no_key, no_list,
  items, Wire, Arrival, message, garbled, ws_closed, late,
}
use locate_anything_setup.Clients.Smoke.{is_tag, is_success}

-- `resp_type`
pub data RespType : Type 0 where
  result error timeout closed wrong_frame_id unexpected : RespType

pub record FrameRecord (F : Type 0) : Type 0 where
  pub frame_id : Text
  pub sent_at : F
  pub latency_ms : F
  pub resp_type : RespType
  pub variant : Option Text
  pub n_geom : Option ℕ

pub record ClientResult (F : Type 0) : Type 0 where
  pub frames : List (FrameRecord F)
  pub connect_failed : Bool

-- What happens to one frame that is sent.
pub record FrameEvent (F : Type 0) : Type 0 where
  pub sent_at : F
  pub recv_at : F
  pub arrival : Arrival F

-- The digits of a number; the number itself is enough fuel.
unfoldable pub digits_of : ℕ → ℕ → Text
digits_of zero n = (b'0' + n % 10) ∷ []
digits_of (suc fuel) n =
    let more = digits_of fuel (n / 10) ++ (b'0' + n % 10) ∷ [] in
    if ltb n 10 then (b'0' + n) ∷ [] else more

unfoldable pub pad : ℕ → Text → Text
pad zero t = t
pad (suc n) t = b'0' ∷ pad n t

-- f"{client_id}-{i:03d}"
unfoldable pub frame_id_of : Text → ℕ → Text
unfolding digits_of pad
frame_id_of client_id i =
    let digits = digits_of i i in client_id ++ (b'-' ∷ pad (3 - length digits) digits)

-- f"smoke-cc-{chr(ord('A') + i)}"
unfoldable pub client_id_of : ℕ → Text
client_id_of i = codes "smoke-cc-" ++ (b'A' + i) ∷ []

-- What a frame comes to: a record behind which the client goes on, the record of a close, or an
-- exception that ends the client.
pub data Frame (F : Type 0) : Type 0 where
  recorded last_one : FrameRecord F → Frame F
  raised : Frame F

module _ {F : Type 0} ⦃fl : Float F⦄ where
  -- `(v or "")[:200]` raises nothing.
  unfoldable pub can_slice : Scalar F → Bool
  can_slice absent = true
  can_slice (text t) = true
  can_slice (integer n) = n == 0
  can_slice (real x) = not (fl.lt x (fl.of_nat 0) || fl.lt (fl.of_nat 0) x)
  can_slice (boolean b) = not b
  can_slice array = true
  can_slice dictionary = false

  -- `len(obj.get(key, []))`; `none` is a TypeError.
  unfoldable pub list_length : ListField F → Option ℕ
  list_length no_key = some 0
  list_length no_list = none
  list_length (items xs) = some (length xs)

  -- The count of geometry of a success.
  unfoldable pub count_geometry : Wire F → Option ℕ
  unfolding is_tag list_length
  count_geometry w =
      if is_tag w.type_tag (codes "boxes")
      then list_length w.boxes_field
      else if is_tag w.type_tag (codes "points")
      then list_length w.points_field
      else some 0

  unfoldable pub latency : FrameEvent F → F
  latency e = fl.mul (fl.sub e.recv_at e.sent_at) (fl.of_nat 1000)

  abbrev pub plain_record : Text → FrameEvent F → RespType → FrameRecord F
  plain_record id e t = record {
    frame_id = id;
    sent_at = e.sent_at;
    latency_ms = latency e;
    resp_type = t;
    variant = none;
    n_geom = none;
  }

  unfoldable pub success_record : Text → FrameEvent F → Wire F → Option ℕ → Frame F
  unfolding can_slice
  success_record id e w none = raised
  success_record id e w (some n) =
      if can_slice w.raw_text
      then recorded (record (plain_record id e result) { variant = w.type_tag; n_geom = some n })
      else raised

  -- The object that arrives for a frame.
  unfoldable pub classify : Text → FrameEvent F → Wire F → Frame F
  unfolding is_tag is_success success_record count_geometry
  classify id e w =
      if not (is_tag w.frame_id id)
      then recorded (plain_record id e wrong_frame_id)
      else if is_success w.type_tag
      then success_record id e w (count_geometry w)
      else if is_tag w.type_tag (codes "error")
      then recorded (plain_record id e error)
      else recorded (plain_record id e unexpected)

  unfoldable pub frame_of : F → Text → FrameEvent F → Frame F
  unfolding classify latency
  frame_of frame_timeout id e = elim e.arrival [
    | message w ↦ classify id e w
    | garbled ↦ raised
    | ws_closed ↦ last_one (plain_record id e closed)
    | late ↦
        recorded (record (plain_record id e timeout) {
          latency_ms = fl.mul frame_timeout (fl.of_nat 1000);
        })
  ]

  -- What a frame adds to what follows.
  unfoldable pub add_frame : Frame F → ClientResult F → ClientResult F
  add_frame (recorded r) rest = record rest { frames = r ∷ rest.frames }
  add_frame (last_one r) rest = record { frames = r ∷ []; connect_failed = false }
  add_frame raised rest = record { frames = []; connect_failed = true }

  -- The loop over the frames from `i` on, `left` of them.
  unfoldable pub frames_from : F → Text → (ℕ → FrameEvent F) → ℕ → ℕ → ClientResult F
  unfolding frame_of add_frame
  frames_from frame_timeout client_id events i zero = record { frames = []; connect_failed = false }
  frames_from frame_timeout client_id events i (suc left) =
      add_frame (frame_of frame_timeout (frame_id_of client_id i) (events i))
        (frames_from frame_timeout client_id events (i + 1) left)

  -- `_run_one_client`; without events, the connection cannot be opened.
  unfoldable pub run_one_client : F → ℕ → Text → Option (ℕ → FrameEvent F) → ClientResult F
  unfolding frames_from
  run_one_client frame_timeout num_frames client_id none = record {
    frames = [];
    connect_failed = true;
  }
  run_one_client frame_timeout num_frames client_id (some events) =
      frames_from frame_timeout client_id events 0 num_frames
