-- ===== src/Clients/Sender/Messages.antt =====
-- What the server reads of the messages of the reference client.
use locate_anything_setup.Prelude.{
  ℕ, ◌+◌, ◌≡◌, ◌≤◌, ◌<◌, refl, sym, ap, ◌∙◌, none, some, List, [], ◌∷◌, ◌++◌, map, length, All,
  Option-cases, inl, inr, Bool, true, false, if◌then◌else◌, append_assoc, ltb, arith,
}
use locate_anything_setup.Prelude.Members.{All-map}
use locate_anything_setup.Float.{Float}
use locate_anything_setup.Text.{Text}
use locate_anything_setup.Outcome.{ok}
use locate_anything_setup.Framing.{
  Bytes, Read, frame, pack, read_frame, write_frame, max_frame_bytes,
}
use locate_anything_setup.Framing.RoundTrip.{read_frame-write_frame}
use locate_anything_setup.Clients.Sender.{
  Cv, FrameHeader, fit, capture, capture_thread, returns, header_of, payload, sender,
}

module _ {Img R : Type 0} (F : Type 0) ⦃fl : Float F⦄ (cv : Cv Img) (max_dim : ℕ)
    (dumps : FrameHeader R → Bytes) (client_id : Text) (request : R) (mode : Text) where
  -- The frames that are encoded, with their places among those that are read.
  unfoldable pub encoded : ℕ → List Img → List (ℕ × Bytes)
  encoded idx [] = []
  encoded idx (img ∷ imgs) =
      let rest = encoded (idx + 1) imgs in
      elim (cv.imencode (fit F cv max_dim img)) [ none ↦ rest | some jpeg ↦ (idx, jpeg) ∷ rest ]

  -- What is to be read of a message: its header, and the JPEG behind it.
  abbrev pub as_read : ℕ × Bytes → Read
  as_read (idx, jpeg) = frame (dumps (header_of cv dumps client_id request mode idx jpeg)) jpeg

  read_frame-payload :
      ((idx : ℕ) (jpeg : Bytes)
        → length (dumps (header_of cv dumps client_id request mode idx jpeg)) ≤ max_frame_bytes)
      → (idx : ℕ) (jpeg : Bytes)
      → read_frame (payload cv dumps client_id request mode idx jpeg) ≡ as_read (idx, jpeg)
  unfolding payload write_frame pack
  read_frame-payload short idx jpeg =
      let header = dumps (header_of cv dumps client_id request mode idx jpeg) in
      let fits : length header ≤ max_frame_bytes = short idx jpeg in
      let small : ltb max_frame_bytes (length header) ≡ false = ground arith in
      let written : write_frame false header ≡ ok (pack (length header) ++ header) =
        rw small refl in
      ap read_frame (sym (append_assoc (pack (length header)) header jpeg))
      ∙ read_frame-write_frame false header (pack (length header) ++ header) jpeg written

  messages :
      ((idx : ℕ) (jpeg : Bytes)
        → length (dumps (header_of cv dumps client_id request mode idx jpeg)) ≤ max_frame_bytes)
      → (idx : ℕ) (imgs : List Img)
      → map read_frame (sender cv dumps client_id request mode (capture F cv max_dim idx imgs))
        ≡ map as_read (encoded idx imgs)
  unfolding sender capture encoded
  messages short idx [] = refl
  messages short idx (img ∷ imgs) =
      let ih = messages short (idx + 1) imgs in
      elim (Option-cases (cv.imencode (fit F cv max_dim img))) [
        | inl e ↦ rw (e, encoded) ih
        | inr (jpeg, e) ↦ rw (e, encoded) (rw (read_frame-payload short idx jpeg, ih) refl)
      ]

  -- Each place is in front of the next.
  abbrev pub IsIncreasing : List (ℕ × Bytes) → Type 0
  IsIncreasing [] = Unit
  IsIncreasing (x ∷ xs) = All (λ y. x.0 < y.0) xs × IsIncreasing xs

  encoded-from : (idx : ℕ) (imgs : List Img) → All (λ y. idx ≤ y.0) (encoded idx imgs)
  unfolding encoded
  encoded-from idx [] = tt
  encoded-from idx (img ∷ imgs) =
      let later =
        All-map (encoded (idx + 1) imgs) (λ y h. omega arith) (encoded-from (idx + 1) imgs) in
      elim (Option-cases (cv.imencode (fit F cv max_dim img))) [
        | inl e ↦ rw (e, encoded, All) later
        | inr (jpeg, e) ↦ rw (e, encoded, All) (omega arith, later)
      ]

  encoded-IsIncreasing : (idx : ℕ) (imgs : List Img) → IsIncreasing (encoded idx imgs)
  unfolding encoded
  encoded-IsIncreasing idx [] = tt
  encoded-IsIncreasing idx (img ∷ imgs) =
      let ih = encoded-IsIncreasing (idx + 1) imgs in
      elim (Option-cases (cv.imencode (fit F cv max_dim img))) [
        | inl e ↦ rw (e, encoded, IsIncreasing) ih
        | inr (jpeg, e) ↦
            rw (e, encoded, IsIncreasing)
              (
                All-map (encoded (idx + 1) imgs) (λ y h. omega arith) (encoded-from (idx + 1) imgs),
                ih,
              )
      ]

  returns-capture : (idx : ℕ) (imgs : List Img) → returns (capture F cv max_dim idx imgs) ≡ true
  unfolding returns capture
  returns-capture idx [] = refl
  returns-capture idx (img ∷ imgs) = returns-capture (idx + 1) imgs

  -- Where every header fits in a frame: `sender` returns, given the queue of `capture_thread`,
  -- exactly if the source was opened; what is read of its messages, as the worker reads a frame, is
  -- then the header and the JPEG of each frame that can be encoded, in their order, and nothing if
  -- the source was not opened; and the places of these frames increase.
  pub sender-capture_thread :
      ((idx : ℕ) (jpeg : Bytes)
        → length (dumps (header_of cv dumps client_id request mode idx jpeg)) ≤ max_frame_bytes)
      → (is_opened : Bool) (imgs : List Img)
      → (returns (capture_thread F cv max_dim is_opened imgs) ≡ is_opened)
        × (map read_frame
              (sender cv dumps client_id request mode (capture_thread F cv max_dim is_opened imgs))
            ≡ (if is_opened then map as_read (encoded 0 imgs) else []))
        × IsIncreasing (encoded 0 imgs)
  unfolding capture_thread returns sender
  sender-capture_thread short true imgs =
      (returns-capture 0 imgs, messages short 0 imgs, encoded-IsIncreasing 0 imgs)
  sender-capture_thread short false imgs = (refl, refl, encoded-IsIncreasing 0 imgs)
