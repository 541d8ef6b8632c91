-- ===== src/Framing/RoundTrip.antt =====
-- Frames are read as they were written, and a frame that is cut off is not read at all.
use locate_anything_setup.Prelude.{
  ℕ, zero, suc, ◌+◌, ◌^◌, ◌<◌, ◌≤◌, ◌≡◌, refl, ◌∙◌, Bool, false, none, some, [], ◌∷◌, ◌++◌, length,
  arith, append_assoc, ◌⊎◌, inl, inr,
}
use locate_anything_setup.Outcome.{ok}
use locate_anything_setup.Framing.{
  Bytes, max_frame_bytes, read_exactly, pack, unpack, frame, read_body, read_frame, write_frame,
}

read_exactly-append : (d rest : Bytes) → read_exactly (length d) (d ++ rest) ≡ some (d, rest)
unfolding read_exactly
read_exactly-append [] rest = refl
read_exactly-append (b ∷ d) rest = rw (read_exactly-append d rest)

unpack-pack : (n : ℕ) → n < 2 ^ 32 → unpack (pack n) ≡ n
unfolding unpack pack
unpack-pack n h = omega arith

read_exactly-pack : (n : ℕ) (s : Bytes) → read_exactly 4 (pack n ++ s) ≡ some (pack n, s)
unfolding pack
read_exactly-pack n s = read_exactly-append (pack n) s

read_frame-pack : (n : ℕ) (s : Bytes) → n < 2 ^ 32 → read_frame (pack n ++ s) ≡ read_body n s
unfolding read_frame read_body
read_frame-pack n s h = rw (read_exactly-pack n s, read_frame) (rw (unpack-pack n h))

read_body-append :
    (d rest : Bytes) → length d ≤ max_frame_bytes → read_body (length d) (d ++ rest) ≡ frame d rest
unfolding read_body
read_body-append [] rest h = refl
read_body-append (b ∷ d) rest h = ground (arith, read_exactly-append (b ∷ d) rest)

write_frame-eq-ok :
    (closing : Bool) (d out : Bytes)
    → write_frame closing d ≡ ok out
    → (out ≡ pack (length d) ++ d) × (length d ≤ max_frame_bytes) × (closing ≡ false)
unfolding write_frame
write_frame-eq-ok closing d out h = ground arith

-- Where a frame is written, reading gives its payload back and leaves the stream behind it.
pub read_frame-write_frame :
    (closing : Bool) (d out rest : Bytes)
    → write_frame closing d ≡ ok out
    → read_frame (out ++ rest) ≡ frame d rest
read_frame-write_frame closing d out rest h =
    let (e, fits, _) = write_frame-eq-ok closing d out h in
    rw e (
      rw (append_assoc (pack (length d)) d rest)
        (read_frame-pack (length d) (d ++ rest) (omega arith) ∙ read_body-append d rest fits))

read_exactly-cases :
    (n : ℕ) (s : Bytes)
    → (read_exactly n s ≡ none)
      ⊎ ((x : Bytes × Bytes) × (read_exactly n s ≡ some x) × (length s ≡ n + length x.1))
unfolding read_exactly
read_exactly-cases zero s = inr (([], s), refl, omega arith)
read_exactly-cases (suc n) [] = inl refl
read_exactly-cases (suc n) (b ∷ s) = elim (read_exactly-cases n s) [
  | inl e ↦ inl (rw e)
  | inr (x, e, l) ↦ inr ((b ∷ x.0, x.1), rw e, omega arith)
]

read_body-length :
    (n : ℕ) (s d rest : Bytes) → read_body n s ≡ frame d rest → length rest ≤ length s
unfolding read_body
read_body-length n s d rest h = elim (read_exactly-cases n s) [
  | inl e ↦ ground arith
  | inr (x, e, l) ↦ ground arith
]

-- A frame that is read takes the four bytes of its length, at least, off the stream.
pub read_frame-length :
    (s d rest : Bytes) → read_frame s ≡ frame d rest → length rest + 4 ≤ length s
unfolding read_frame read_body
read_frame-length s d rest h = elim (read_exactly-cases 4 s) [
  | inl e ↦ absurd (cc (rw (e, read_frame) at h))
  | inr (x, e, l) ↦
      let k : read_body (unpack x.0) x.1 ≡ frame d rest = rw (e, read_frame) at h in
      omega (arith, read_body-length (unpack x.0) x.1 d rest k)
]
