-- ===== src/Worker/Serve/Laws.antt =====
-- The loop of a connection ends, and each request that arrives whole has one reply.
use locate_anything_setup.Prelude.{
  ℕ, zero, suc, ◌+◌, ◌≤◌, ◌<◌, ◌≡◌, ◌≢◌, refl, Bool, none, some, ◌++◌, length, arith,
}
use locate_anything_setup.Float.{Float}
use locate_anything_setup.Outcome.{ok}
use locate_anything_setup.Framing.{
  Bytes, Read, frame, incomplete, too_large, read_frame, write_frame,
}
use locate_anything_setup.Framing.RoundTrip.{read_frame-write_frame, read_frame-length}
use locate_anything_setup.Worker.Reply.{Reply}
use locate_anything_setup.Worker.Serve.{
  Codec, Tick, Turn, replied, broke, crashed, exited, respond, turn, out_of_fuel, serve,
  after_header, after_read, after_turn,
}

module _ {F : Type 0} ⦃fl : Float F⦄ (codec : Codec F) where
  -- Two frames that were written, a header and a payload, are one turn: it answers them and leaves
  -- the stream behind them.
  pub turn-write_frame :
      (tick : Tick F) (a b : Bool) (header payload out1 out2 rest : Bytes)
      → write_frame a header ≡ ok out1
      → write_frame b payload ≡ ok out2
      → turn codec tick (out1 ++ (out2 ++ rest)) ≡ (respond codec tick header payload, rest)
  unfolding turn
  turn-write_frame tick a b header payload out1 out2 rest e f =
      rw (read_frame-write_frame a header out1 (out2 ++ rest) e, turn)
        (rw (read_frame-write_frame b payload out2 rest f))

  -- The two reads take eight bytes, at least, off the stream.
  turn-replied :
      (tick : Tick F) (s rest : Bytes) (r : Reply F)
      → turn codec tick s ≡ (replied r, rest)
      → length rest + 8 ≤ length s
  unfolding turn
  turn-replied tick s rest r h = first (read_frame s) refl h
    where
      second :
          (a s1 : Bytes)
          → length s1 + 4 ≤ length s
          → (x : Read) → read_frame s1 ≡ x
          → after_header codec tick s1 a x ≡ (replied r, rest)
          → length rest + 8 ≤ length s
      second a s1 l (frame d s2) e k = ground (arith, read_frame-length s1 d s2 e)
      second a s1 l incomplete e k = ground arith
      second a s1 l (too_large n) e k = ground arith

      first :
          (x : Read)
          → read_frame s ≡ x
          → after_read codec tick s x ≡ (replied r, rest)
          → length rest + 8 ≤ length s
      first (frame a s1) e k = second a s1 (read_frame-length s a s1 e) (read_frame s1) refl k
      first incomplete e k = ground arith
      first (too_large n) e k = ground arith

  after_turn_ends :
      (fuel n : ℕ) (ticks : ℕ → Tick F) (s : Bytes) (x : Turn F × Bytes)
      → turn codec (ticks n) s ≡ x
      → length s ≤ fuel
      → ((rest : Bytes)
          → length rest < fuel
          → (serve codec fuel (n + 1) ticks rest).1 ≢ out_of_fuel)
      → (after_turn codec (serve codec fuel (n + 1) ticks) x).1 ≢ out_of_fuel
  unfolding after_turn
  after_turn_ends fuel n ticks s (replied r, rest) e h ih =
      ih rest (omega (arith, turn-replied (ticks n) s rest r e))
  after_turn_ends fuel n ticks s (broke, rest) e h ih = λ p. cc
  after_turn_ends fuel n ticks s (crashed x, rest) e h ih = λ p. cc
  after_turn_ends fuel n ticks s (exited c none, rest) e h ih = λ p. cc
  after_turn_ends fuel n ticks s (exited c (some r), rest) e h ih = λ p. cc

  -- The loop of a connection on a stream that ends does end: one more turn than the stream has
  -- bytes is enough.
  pub serve_ends :
      (fuel n : ℕ) (ticks : ℕ → Tick F) (s : Bytes)
      → length s < fuel
      → (serve codec fuel n ticks s).1 ≢ out_of_fuel
  unfolding serve
  serve_ends zero n ticks s h = elim h [ ]
  serve_ends (suc fuel) n ticks s h =
      after_turn_ends fuel n ticks s (turn codec (ticks n) s) refl (omega arith)
        (λ rest l. serve_ends fuel (n + 1) ticks rest l)
