-- ===== src/Worker/Serve/Replies.antt =====
-- Over an open writer every request that arrives whole has exactly one reply.
use mathlib.Core.Bool.{false≢true}
use locate_anything_setup.Prelude.{
  ◌≤◌, ◌≡◌, ◌≢◌, refl, sym, ap, ◌∙◌, ◌⊎◌, inl, inr, Bool, true, false, Option, none, some, List, [],
  ◌∷◌, ◌++◌, length, arith, if◌then◌else◌, Option-cases,
}
use locate_anything_setup.Text.{Text, codes, equal}
use locate_anything_setup.Float.{Float}
use locate_anything_setup.Outcome.{
  Value, str, no_str, Exception, value_error, runtime_error, out_of_memory, timed_out,
  connection_error, other_error, Outcome, ok, raise, ◌>>=◌,
}
use locate_anything_setup.Framing.{Bytes, max_frame_bytes, write_frame}
use locate_anything_setup.Worker.Reply.{
  Message, Reply, error, frame_error, capabilities, info, kind_unknown, error_text, unexpected,
  header_not_utf8, header_not_json, header_not_object,
}
use locate_anything_setup.Worker.Infer.{Header, infer, get}
use locate_anything_setup.Worker.Infer.Laws.{infer_raises}
use locate_anything_setup.Worker.Serve.{
  Codec, Json, object, no_object, not_json, Tick, replied, request_id, send, last_word, handle,
  route_kind, route, respond, respond_json,
}

-- Neither of the two exceptions that end the process.
abbrev pub IsMild : {A : Type 0} → Outcome A → Type 0
IsMild o = (o ≢ raise out_of_memory) × (o ≢ raise timed_out)

-- The writer is open, the run is in time, and nothing runs out of memory.
pub record IsCalm {F : Type 0} (tick : Tick F) : Type 0 where
  pub is_open : tick.closing ≡ false
  pub is_in_time : tick.in_time ≡ true
  pub mild_run : (j : Bytes) (p : Text) (m t : Value) → IsMild (tick.run j p m t)
  pub mild_capabilities : IsMild tick.query_capabilities
  pub mild_info : IsMild tick.query_info

-- The requests of a stream, each written whole as two frames.
pub data Requests : List (Bytes × Bytes) → Bytes → Type 0 where
  none_left : Requests [] []
  request :
      {header payload out1 out2 rest s : Bytes} {qs : List (Bytes × Bytes)}
      → write_frame false header ≡ ok out1
      → write_frame false payload ≡ ok out2
      → s ≡ out1 ++ (out2 ++ rest)
      → Requests qs rest
      → Requests ((header, payload) ∷ qs) s

module _ {F : Type 0} ⦃fl : Float F⦄ (codec : Codec F)
    (fits : (r : Reply F) → length (codec.dumps r) ≤ max_frame_bytes) where
  send_open : (tick : Tick F) (o : Outcome (Reply F)) → tick.closing ≡ false → send codec tick o ≡ o
  unfolding send
  send_open tick (ok r) c = ground (arith, fits r)
  send_open tick (raise e) c = refl

  last_word_open :
      (tick : Tick F) (id : Text) (m : Message)
      → tick.closing ≡ false
      → last_word codec tick id m ≡ replied (error id "internal" m)
  unfolding last_word frame_error
  last_word_open tick id m c = rw (send_open tick (frame_error id "internal" m) c, last_word)

  handle_open :
      (tick : Tick F) (id : Text) (o : Outcome (Reply F))
      → tick.closing ≡ false
      → IsMild o
      → (r : Reply F) × (handle codec tick id o ≡ replied r)
  unfolding handle
  handle_open tick id (ok r) c m = (r, refl)
  handle_open tick id (raise out_of_memory) c m = absurd (m.0 refl)
  handle_open tick id (raise timed_out) c m = absurd (m.1 refl)
  handle_open tick id (raise (value_error x)) c m = (_, last_word_open tick id (error_text x) c)
  handle_open tick id (raise (runtime_error x)) c m = (_, last_word_open tick id (error_text x) c)
  handle_open tick id (raise connection_error) c m = (_, last_word_open tick id unexpected c)
  handle_open tick id (raise (other_error x)) c m = (_, last_word_open tick id unexpected c)

  IsMild-query : (q : Outcome (Unit {0})) (r : Reply F) → IsMild q → IsMild (q >>= λ u. ok r)
  IsMild-query (ok u) r m = (λ p. cc, λ p. cc)
  IsMild-query (raise e) r m = (
    λ p. let s : e ≡ out_of_memory = cc in m.0 (ap raise s),
    λ p. let s : e ≡ timed_out = cc in m.1 (ap raise s),
  )

  calm_raise :
      (tick : Tick F) (j : Bytes) (p : Text) (mv tv : Value) (e : Exception)
      → IsCalm tick
      → ((tick.in_time ≡ false) × (e ≡ timed_out))
        ⊎ ((tick.in_time ≡ true) × (tick.run j p mv tv ≡ raise e))
      → tick.run j p mv tv ≡ raise e
  calm_raise tick j p mv tv e c (inl (late, _)) = absurd (false≢true (sym late ∙ c.is_in_time))
  calm_raise tick j p mv tv e c (inr (_, r)) = r

  IsMild-infer :
      (tick : Tick F) (h : Header) (payload : Bytes)
      → IsCalm tick
      → IsMild (infer tick.run tick.in_time tick.total_ms h payload)
  IsMild-infer tick h payload c = (
    λ p.
        let (q, _, x) =
          infer_raises tick.run tick.in_time tick.total_ms h payload out_of_memory p in
        (c.mild_run payload q.prompt q.mode_value q.prompt_task).0
          (calm_raise tick payload q.prompt q.mode_value q.prompt_task out_of_memory c x),
    λ p.
        let (q, _, x) = infer_raises tick.run tick.in_time tick.total_ms h payload timed_out p in
        (c.mild_run payload q.prompt q.mode_value q.prompt_task).1
          (calm_raise tick payload q.prompt q.mode_value q.prompt_task timed_out c x),
  )

  IsMild-frame_error : (id : Text) (m : Message) → IsMild (frame_error {F = F} id "internal" m)
  unfolding frame_error
  IsMild-frame_error id m = (λ p. cc, λ p. cc)

  IsMild-if :
      (b : Bool) (x y : Outcome (Reply F)) → IsMild x → IsMild y → IsMild (if b then x else y)
  IsMild-if true x y m n = m
  IsMild-if false x y m n = n

  IsMild-route_kind :
      (tick : Tick F) (h : Header) (payload : Bytes) (k : Option Value)
      → IsCalm tick
      → IsMild (route_kind codec tick h payload k)
  unfolding route_kind
  IsMild-route_kind tick h payload (some (str k)) c =
      IsMild-if (equal k (codes "capabilities")) _ _
        (IsMild-query tick.query_capabilities capabilities c.mild_capabilities)
        (IsMild-if (equal k (codes "info")) _ _ (IsMild-query tick.query_info info c.mild_info) (
          IsMild-if (equal k (codes "frame")) _ _ (IsMild-infer tick h payload c)
            (IsMild-frame_error (request_id h) kind_unknown)))
  IsMild-route_kind tick h payload (some no_str) c = IsMild-frame_error (request_id h) kind_unknown
  IsMild-route_kind tick h payload none c = IsMild-frame_error (request_id h) kind_unknown

  respond_json_open :
      (tick : Tick F) (payload : Bytes) (j : Json)
      → IsCalm tick
      → (r : Reply F) × (respond_json codec tick payload j ≡ replied r)
  unfolding respond_json
  respond_json_open tick payload not_json c = (_, last_word_open tick [] header_not_json c.is_open)
  respond_json_open tick payload no_object c =
      (_, last_word_open tick [] header_not_object c.is_open)
  respond_json_open tick payload (object h) c =
      rw (send_open tick (route codec tick h payload) c.is_open) (
        handle_open tick (request_id h) (route codec tick h payload) c.is_open
          (unfold route in IsMild-route_kind tick h payload (get "kind" h) c))

  -- On a calm turn every request is replied, whatever its bytes.
  pub respond_open :
      (tick : Tick F) (header payload : Bytes)
      → IsCalm tick
      → (r : Reply F) × (respond codec tick header payload ≡ replied r)
  unfolding respond
  respond_open tick header payload c = elim (Option-cases (codec.decode_utf8 header)) [
    | inl e ↦ (
      error [] "internal" header_not_utf8,
      rw (e, respond) (last_word_open tick [] header_not_utf8 c.is_open),
    )
    | inr (t, e) ↦
        let (r, q) = respond_json_open tick payload (codec.loads t) c in (r, rw (e, respond) q)
  ]
