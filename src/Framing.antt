-- ===== src/Framing.antt =====
-- worker/la_worker.py: the length-prefixed frames of the socket. A stream is the bytes that the peer
-- sends before it closes; a read that meets the end is an IncompleteReadError.
pub mod RoundTrip
use locate_anything_setup.Prelude.{
  ℕ, zero, suc, ◌+◌, ◌*◌, ◌/◌, ◌%◌, ◌^◌, Bool, true, false, Option, none, some, List, [], ◌∷◌, ◌++◌,
  length, ltb, ◌==◌, if◌then◌else◌,
}
use locate_anything_setup.Outcome.{
  Outcome, ok, raise, value_error, connection_error, frame_too_large,
}

abbrev pub Bytes : Type 0
Bytes = List ℕ

abbrev pub len_prefix : ℕ
len_prefix = 4

abbrev pub max_frame_bytes : ℕ
max_frame_bytes = 16 * 1024 * 1024

-- `reader.readexactly(n)`: the bytes and the rest of the stream.
unfoldable pub read_exactly : ℕ → Bytes → Option (Bytes × Bytes)
read_exactly zero s = some ([], s)
read_exactly (suc n) [] = none
read_exactly (suc n) (b ∷ s) = elim (read_exactly n s) [
  | none ↦ none
  | some (r, rest) ↦ some (b ∷ r, rest)
]

-- `struct.pack(">I", n)`, for n below 2 ^ 32
unfoldable pub pack : ℕ → Bytes
pack n = (n / 2 ^ 24) % 256 ∷ (n / 2 ^ 16) % 256 ∷ (n / 2 ^ 8) % 256 ∷ n % 256 ∷ []

-- `struct.unpack(">I", header)`, a fold over the bytes.
unfoldable pub unpack_from : ℕ → Bytes → ℕ
unpack_from n [] = n
unpack_from n (b ∷ bs) = unpack_from (n * 256 + b) bs

unfoldable pub unpack : Bytes → ℕ
unfolding unpack_from
unpack bs = unpack_from 0 bs

pub data Read : Type 0 where
  frame : Bytes → Bytes → Read
  incomplete : Read
  too_large : ℕ → Read

-- The frame of `size` bytes, once the size is known.
unfoldable pub read_body : ℕ → Bytes → Read
read_body size s =
    if ltb max_frame_bytes size
    then too_large size
    else if size == 0
    then frame [] s
    else elim (read_exactly size s) [ none ↦ incomplete | some (d, rest) ↦ frame d rest ]

unfoldable pub read_frame : Bytes → Read
unfolding unpack
read_frame s = elim (read_exactly len_prefix s) [
  | none ↦ incomplete
  | some (header, rest) ↦ read_body (unpack header) rest
]

-- The bytes that go out; `closing` is `writer.is_closing()`.
unfoldable pub write_frame : Bool → Bytes → Outcome Bytes
write_frame closing payload =
    if closing
    then raise connection_error
    else if ltb max_frame_bytes (length payload)
    then raise (value_error frame_too_large)
    else ok (pack (length payload) ++ payload)
