-- ===== src/Clients/Smoke/Accepts.antt =====
-- What the smoke client makes of the replies of the worker.
use locate_anything_setup.Prelude.{◌≡◌, refl, ◌∙◌, Bool, some, List, [], ◌∷◌, map, subst}
use locate_anything_setup.Text.{codes}
use locate_anything_setup.Float.{Float}
use locate_anything_setup.Outcome.{ok, str}
use locate_anything_setup.Parsing.{Detection, Point}
use locate_anything_setup.Framing.{Bytes}
use locate_anything_setup.Inference.Variant.{Kind, boxes, points, abstained, model_deviation}
use locate_anything_setup.Worker.Reply.{Body, success}
use locate_anything_setup.Worker.Infer.{Header, get, non_empty_str, Run, infer}
use locate_anything_setup.Worker.Infer.Laws.{known_id, HasKeys, IsAnswer, infer-IsAnswer}
use locate_anything_setup.Clients.Wire.{kind_name, box_item, point_item, wire_of}
use locate_anything_setup.Clients.Smoke.{
  first_exit, box_exit, point_exit, list_exit, geometry_exit, reply_exit,
}

module _ {F : Type 0} where
  boxes-pass : (xs : List (Detection F)) → first_exit (map box_exit (map box_item xs)) ≡ 0
  unfolding first_exit box_exit
  boxes-pass [] = refl
  boxes-pass (x ∷ xs) = boxes-pass xs

  points-pass : (xs : List (Point F)) → first_exit (map point_exit (map point_item xs)) ≡ 0
  unfolding first_exit point_exit
  points-pass [] = refl
  points-pass (x ∷ xs) = points-pass xs

  wire_of-passes :
      (b : Body F) (k : Kind)
      → b.kind ≡ k
      → HasKeys k b
      → b.frame_id ≡ codes "smoke-001"
      → reply_exit (some (kind_name k)) (wire_of b) ≡ 0
  unfolding reply_exit wire_of geometry_exit list_exit
  wire_of-passes b boxes e ((xs, p), q) i = rw (e, i, p) (rw (boxes-pass xs) refl)
  wire_of-passes b points e ((xs, p), q) i = rw (e, i, p) (rw (points-pass xs) refl)
  wire_of-passes b abstained e (p, q) i = rw (e, i) refl
  wire_of-passes b model_deviation e h i = absurd h

  -- The smoke client that sent the frame `smoke-001` and expects the variant of the reply exits by
  -- 0 on every success that `_infer` returns for that frame.
  pub infer-reply_exit :
      ⦃fl : Float F⦄ (run : Run F) (in_time : Bool) (total_ms : F) (h : Header) (jpeg : Bytes)
      (b : Body F)
      → infer run in_time total_ms h jpeg ≡ ok (success b)
      → get "frame_id" h ≡ some (str (codes "smoke-001"))
      → reply_exit (some (kind_name b.kind)) (wire_of b) ≡ 0
  infer-reply_exit run in_time total_ms h jpeg b e i =
      let (same, keys) = subst (IsAnswer _) e (infer-IsAnswer run in_time total_ms h jpeg) in
      let id : known_id (non_empty_str (get "frame_id" h)) ≡ codes "smoke-001" = rw i refl in
      wire_of-passes b b.kind refl keys (same ∙ id)
