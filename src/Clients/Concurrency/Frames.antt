-- ===== src/Clients/Concurrency/Frames.antt =====
-- What a frame that leaves no failure was answered with.
use locate_anything_setup.Prelude.{
  ◌≡◌, refl, Bool, true, false, not, List, [], ◌∷◌, ◌++◌, if◌then◌else◌,
}
use locate_anything_setup.Text.{Text, is_empty}
use locate_anything_setup.Float.{Float}
use locate_anything_setup.Outcome.{Outcome, ok, raise, ◌>>=◌}
use locate_anything_setup.Clients.Wire.{Wire, Arrival, message, garbled, ws_closed, late}
use locate_anything_setup.Clients.Smoke.{is_tag, is_success}
use locate_anything_setup.Clients.Request.{Built, built, usage}
use locate_anything_setup.Clients.Concurrency.{
  error, wrong_frame_id, unexpected, FrameEvent, Frame, recorded, last_one, raised, success_record,
  classify, frame_of, count_geometry, codes, plain_record,
}
use locate_anything_setup.Clients.Concurrency.Report.{Failure, is_result, refused, verdict}

-- A success that carries the id of its frame.
abbrev pub Answered : {F : Type 0} → Text → FrameEvent F → Type 0
Answered {F} id e =
    (w : Wire F) × (e.arrival ≡ message w)
    × (is_tag w.frame_id id ≡ true)
    × (is_success w.type_tag ≡ true)

pub append-empty :
    {A : Type 0} (xs ys : List A) → is_empty (xs ++ ys) ≡ true → (xs ≡ []) × (ys ≡ [])
append-empty [] [] h = (refl, refl)
append-empty [] (y ∷ ys) h = cc
append-empty (x ∷ xs) ys h = cc

pub by_guards :
    (soi few : Bool) (b : Built) (m : Outcome (List Failure))
    → (if not soi
        then refused
        else if few
        then refused
        else elim b [ usage u ↦ refused | built q ↦ (m >>= verdict) ])
      ≡ ok 0
    → (fs : List Failure) × (m ≡ ok fs) × (is_empty fs ≡ true)
by_guards false few b m h = cc
by_guards true true b m h = cc
by_guards true false (usage u) m h = cc
by_guards true false (built q) (raise x) h = cc
by_guards true false (built q) (ok []) h = ([], refl, refl)
by_guards true false (built q) (ok (f ∷ fs)) h = cc

module _ {F : Type 0} ⦃fl : Float F⦄ where
  abbrev pub Passes : Frame F → Type 0
  Passes (recorded r) = is_result r.resp_type ≡ true
  Passes (last_one r) = is_result r.resp_type ≡ true
  Passes raised = ⊥

  by_tests :
      (id : Text) (e : FrameEvent F) (own success is_error : Bool) (s : Frame F)
      → Passes (
          if not own
          then recorded (plain_record id e wrong_frame_id)
          else if success
          then s
          else if is_error
          then recorded (plain_record id e error)
          else recorded (plain_record id e unexpected))
      → (own ≡ true) × (success ≡ true)
  by_tests id e true true is_error s h = (refl, refl)
  by_tests id e true false true s h = cc
  by_tests id e true false false s h = cc
  by_tests id e false success is_error s h = cc

  pub classify-Passes :
      (id : Text) (e : FrameEvent F) (w : Wire F)
      → Passes (classify id e w)
      → (is_tag w.frame_id id ≡ true) × (is_success w.type_tag ≡ true)
  unfolding classify
  classify-Passes id e w h =
      by_tests id e (is_tag w.frame_id id) (is_success w.type_tag)
        (is_tag w.type_tag (codes "error")) (success_record id e w (count_geometry w)) h

  pub frame_of-Passes :
      (wait : F) (id : Text) (e : FrameEvent F) → Passes (frame_of wait id e) → Answered id e
  unfolding frame_of
  frame_of-Passes wait id e h = by_arrival e.arrival refl h
    where
      by_arrival : (a : Arrival F) → e.arrival ≡ a → Passes (frame_of wait id e) → Answered id e
      by_arrival (message w) q p =
          let (own, success) = classify-Passes id e w (rw (q, frame_of) at p) in
          (w, q, own, success)
      by_arrival garbled q p = absurd (rw (q, frame_of) at p)
      by_arrival ws_closed q p = (let no_way : false ≡ true = rw (q, frame_of) at p in cc)
      by_arrival late q p = (let no_way : false ≡ true = rw (q, frame_of) at p in cc)
