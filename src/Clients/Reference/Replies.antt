-- ===== src/Clients/Reference/Replies.antt =====
-- What the reference client logs of the replies of the worker.
use locate_anything_setup.Prelude.{
  ℕ, zero, suc, ◌≡◌, refl, Bool, true, some, List, [], ◌∷◌, map, length, length-map, subst,
}
use locate_anything_setup.Float.{Float}
use locate_anything_setup.Outcome.{ok}
use locate_anything_setup.Parsing.{Detection, Point}
use locate_anything_setup.Framing.{Bytes}
use locate_anything_setup.Inference.Variant.{Kind, boxes, points, abstained, model_deviation}
use locate_anything_setup.Worker.Reply.{Body, success}
use locate_anything_setup.Worker.Infer.{Header, Run, infer}
use locate_anything_setup.Worker.Infer.Laws.{HasKeys, IsAnswer, infer-IsAnswer}
use locate_anything_setup.Clients.Wire.{box_item, point_item, wire_of}
use locate_anything_setup.Clients.Reference.{
  Received, log_boxes, log_points, log_abstained, logs_box, logs_point, all_first, receive,
}

-- The line of the log that a variant asks for.
abbrev pub Logged : {F : Type 0} → Kind → Body F → Received → Type 0
Logged {F} boxes b r =
    (xs : List (Detection F)) × (b.box_list ≡ some xs) × (r ≡ log_boxes (length xs))
Logged {F} points b r =
    (xs : List (Point F)) × (b.point_list ≡ some xs) × (r ≡ log_points (length xs))
Logged abstained b r = r ≡ log_abstained
Logged model_deviation b r = ⊥

module _ {F : Type 0} where
  boxes_log : (n : ℕ) (xs : List (Detection F)) → all_first n logs_box (map box_item xs) ≡ true
  unfolding all_first
  boxes_log zero xs = refl
  boxes_log (suc n) [] = refl
  boxes_log (suc n) (x ∷ xs) = boxes_log n xs

  points_log : (n : ℕ) (xs : List (Point F)) → all_first n logs_point (map point_item xs) ≡ true
  unfolding all_first
  points_log zero xs = refl
  points_log (suc n) [] = refl
  points_log (suc n) (x ∷ xs) = points_log n xs

  receive-Logged :
      (b : Body F) (k : Kind) → b.kind ≡ k → HasKeys k b → Logged k b (receive (wire_of b))
  unfolding receive wire_of
  receive-Logged b boxes e ((xs, p), q) =
      (xs, p, rw (e, p) (rw (boxes_log 3 xs) (rw (length-map box_item xs) refl)))
  receive-Logged b points e ((xs, p), q) =
      (xs, p, rw (e, p) (rw (points_log 3 xs) (rw (length-map point_item xs) refl)))
  receive-Logged b abstained e (p, q) = rw e refl
  receive-Logged b model_deviation e h = absurd h

  -- Logged.
  pub infer-receive :
      ⦃fl : Float F⦄ (run : Run F) (in_time : Bool) (total_ms : F) (h : Header) (jpeg : Bytes)
      (b : Body F)
      → infer run in_time total_ms h jpeg ≡ ok (success b)
      → Logged b.kind b (receive (wire_of b))
  infer-receive run in_time total_ms h jpeg b e =
      receive-Logged b b.kind refl
        (subst (IsAnswer _) e (infer-IsAnswer run in_time total_ms h jpeg)).1
