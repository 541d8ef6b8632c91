-- ===== src/Inference/Variant/Keeps.antt =====
-- The variant mapping leaves the fields alone that every variant carries.
use locate_anything_setup.Prelude.{◌≡◌, refl}
use locate_anything_setup.Inference.Variant.Laws.{
  Case, valid, deviating, empty, Case-of, resolve_valid, resolve_deviation, resolve_abstained,
}
use locate_anything_setup.Prompts.{Task}
use locate_anything_setup.Inference.Variant.{InferenceResult, Geometry, resolve}

-- The two replies differ at most in the variant and in what it carries.
abbrev pub SameFrame : {F : Type 0} → InferenceResult F → InferenceResult F → Type 0
SameFrame r s =
    (r.raw_answer ≡ s.raw_answer)
    × (r.model_output_truncated ≡ s.model_output_truncated)
    × (r.latency_ms ≡ s.latency_ms)
    × (r.image_size ≡ s.image_size)
    × (r.resize_plan ≡ s.resize_plan)

pub resolve-SameFrame :
    {F : Type 0} (t : Task) (g : Geometry F) (blank : InferenceResult F)
    → SameFrame (resolve t g blank) blank
resolve-SameFrame t g blank = by_case (Case-of t g)
  where
    by_case : Case t g → SameFrame (resolve t g blank) blank
    by_case (valid h) = rw (resolve_valid t g blank h) (refl, refl, refl, refl, refl)
    by_case (deviating v h) = rw (resolve_deviation t g blank v h) (refl, refl, refl, refl, refl)
    by_case (empty v h) = rw (resolve_abstained t g blank v h) (refl, refl, refl, refl, refl)
