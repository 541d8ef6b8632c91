-- ===== src/Clients/Sender.antt =====
-- examples/reference_client.py: the frames that `capture_thread` puts into the queue, and the messages
-- that `sender` makes of them. cv2 and JSON are parameters.
pub mod Messages
use locate_anything_setup.Prelude.{
  ℕ, ◌+◌, ◌-◌, max, Bool, true, false, Option, none, some, List, [], ◌∷◌, ◌++◌, length, ltb,
  if◌then◌else◌,
}
use locate_anything_setup.Float.{Float}
use locate_anything_setup.Text.{Text}
use locate_anything_setup.Framing.{Bytes, pack}
use locate_anything_setup.Clients.Concurrency.{digits_of, pad}
use locate_anything_setup.Clients.Reference.{capture_size}

-- The calls of cv2: the size of a frame, `resize`, and `imencode`, which may fail.
pub record Cv (Img : Type 0) : Type 0 where
  pub size : Img → ℕ × ℕ
  pub resize : Img → ℕ × ℕ → Img
  pub imencode : Img → Option Bytes

-- The header of a message, with the request that `build_request` made.
pub record FrameHeader (R : Type 0) : Type 0 where
  pub frame_id : Text
  pub request : R
  pub generation_mode : Text
  pub jpeg_len : ℕ

-- f"{client_id}-{idx:08d}"
unfoldable pub sender_id : Text → ℕ → Text
unfolding digits_of pad
sender_id client_id idx =
    let digits = digits_of idx idx in client_id ++ b'-' ∷ pad (8 - length digits) digits

module _ {Img : Type 0} (F : Type 0) ⦃fl : Float F⦄ (cv : Cv Img) (max_dim : ℕ) where
  unfoldable pub fit : Img → Img
  unfolding capture_size
  fit img =
      let (w, h) = cv.size img in
      if ltb max_dim (max w h) then cv.resize img (capture_size F max_dim (w, h)) else img

  -- The queue of `capture_thread` from the frame `idx` on, for the frames that are read; none is the
  -- sentinel.
  unfoldable pub capture : ℕ → List Img → List (Option (ℕ × Img))
  capture idx [] = none ∷ []
  capture idx (img ∷ imgs) = some (idx, fit img) ∷ capture (idx + 1) imgs

  -- Where the source cannot be opened, the thread ends without a sentinel.
  unfoldable pub capture_thread : Bool → List Img → List (Option (ℕ × Img))
  capture_thread is_opened imgs = if is_opened then capture 0 imgs else []

-- Whether `sender` returns: it waits for ever behind a queue without a sentinel.
unfoldable pub returns : {A : Type 0} → List (Option A) → Bool
returns [] = false
returns (none ∷ q) = true
returns (some item ∷ q) = returns q

module _ {Img R : Type 0} (cv : Cv Img) (dumps : FrameHeader R → Bytes) (client_id : Text)
    (request : R) (mode : Text) where
  unfoldable pub header_of : ℕ → Bytes → FrameHeader R
  header_of idx jpeg = record {
    frame_id = sender_id client_id idx;
    request = request;
    generation_mode = mode;
    jpeg_len = length jpeg;
  }

  -- `struct.pack(">I", len(header)) + header + jpeg`
  unfoldable pub payload : ℕ → Bytes → Bytes
  payload idx jpeg =
      let header = dumps (header_of idx jpeg) in pack (length header) ++ header ++ jpeg

  -- The messages of `sender`, up to the sentinel. A frame that is not encoded is left out.
  unfoldable pub sender : List (Option (ℕ × Img)) → List Bytes
  sender [] = []
  sender (none ∷ q) = []
  sender (some (idx, img) ∷ q) =
      let rest = sender q in
      elim (cv.imencode img) [ none ↦ rest | some jpeg ↦ payload idx jpeg ∷ rest ]
