-- ===== src/Calibration.antt =====
-- worker/calibration.py: the runs at boot, and the statistics of their latencies. The engine's k-th
-- run and its measured time are a parameter; run 0 is the warm-up.
pub mod Statistics
use locate_anything_setup.Prelude.{
  ℕ, zero, suc, ◌+◌, ◌-◌, ◌*◌, ◌/◌, ◌%◌, Bool, true, false, not, ◌||◌, Option, none, some, List, [],
  ◌∷◌, length, ltb, ◌==◌, if◌then◌else◌,
}
use locate_anything_setup.Text.{Text, codes, is_empty}
use locate_anything_setup.Float.{Float}
use locate_anything_setup.Outcome.{
  Value, str, Outcome, ok, raise, value_error, runtime_error, other_error, foreign,
  no_calibration_image, unreadable_image, empty_image, no_runs, no_output, bad_template, ◌>>=◌,
  ◌>>◌, ensure, some_or_raise,
}
use locate_anything_setup.Prompts
use locate_anything_setup.Prompts.{Task, wire_name, classify_prompt}
use locate_anything_setup.Parsing.{has_abstention}
use locate_anything_setup.Inference.Image.{Bytes}
use locate_anything_setup.Inference.Variant.{Kind, abstained, InferenceResult}

pub record CalibrationResult (F : Type 0) : Type 0 where
  pub n_runs : ℕ
  pub median_latency_ms : F
  pub p95_latency_ms : F
  pub min_latency_ms : F
  pub max_latency_ms : F
  pub median_fps : F
  pub test_image_path : Text
  pub test_prompt : Text

-- The file system's answer for the path: `is_file` is false, `read_bytes` raises, or the bytes.
pub data ImageFile : Type 0 where
  no_file unreadable : ImageFile
  contents : Bytes → ImageFile

unfoldable pub read_image : ImageFile → Outcome Bytes
read_image no_file = raise (runtime_error no_calibration_image)
read_image unreadable = raise (runtime_error unreadable_image)
read_image (contents jpeg) = do ensure (not (is_empty jpeg)) (runtime_error empty_image); ok jpeg

-- `prompts.classify_prompt(test_prompt)`
unfoldable pub classified : Text → Outcome Task
classified prompt = elim (classify_prompt prompt) [
  | Prompts.ok t ↦ ok t
  | Prompts.value_error _ ↦ raise (value_error bad_template)
]

abbrev pub is_abstained : Kind → Bool
is_abstained abstained = true
is_abstained _ = false

module _ (F : Type 0) ⦃fl : Float F⦄ where
  -- `max(0, int(0.95 * (n - 1) + 0.5))`; the two literals are correctly rounded quotients.
  unfoldable pub p95_idx : ℕ → ℕ
  p95_idx n = fl.trunc (
      fl.add (fl.mul (fl.div (fl.of_nat 95) (fl.of_nat 100)) (fl.of_nat (n - 1)))
        (fl.div (fl.of_nat 1) (fl.of_nat 2)))

module _ {F : Type 0} ⦃fl : Float F⦄ where
  -- `warm.kind != KIND_ABSTAINED or has_abstention(warm.raw_answer)`
  unfoldable pub is_recognized : InferenceResult F → Bool
  is_recognized warm = not (is_abstained warm.kind) || has_abstention warm.raw_answer

  -- `list.sort()`, which is stable.
  unfoldable pub insert : F → List F → List F
  insert x [] = x ∷ []
  insert x (y ∷ ys) = elim (fl.le x y) [ true ↦ x ∷ (y ∷ ys) | false ↦ y ∷ insert x ys ]

  unfoldable pub sorted : List F → List F
  unfolding insert
  sorted [] = []
  sorted (x ∷ xs) = insert x (sorted xs)

  -- `xs[i]`; `none` is an IndexError.
  abbrev pub get_elem? : List F → ℕ → Option F
  get_elem? [] i = none
  get_elem? (x ∷ xs) zero = some x
  get_elem? (x ∷ xs) (suc i) = get_elem? xs i

  unfoldable pub at : List F → ℕ → Outcome F
  at xs i = some_or_raise (get_elem? xs i) (other_error foreign)

  -- `statistics.median` of a sorted list: the middle, or the mean of the two in the middle.
  unfoldable pub median : List F → Outcome F
  unfolding at
  median xs =
      let n = length xs in
      if n % 2 == 1
      then at xs (n / 2)
      else (do a ← at xs (n / 2 - 1); b ← at xs (n / 2); ok (fl.div (fl.add a b) (fl.of_nat 2)))

  -- `1000.0 / median if median > 0 else 0.0`
  unfoldable pub fps : F → F
  fps m = if fl.lt (fl.of_nat 0) m then fl.div (fl.of_nat 1000) m else fl.of_nat 0

  -- The statistics of the latencies, in the order of the runs.
  unfoldable pub statistics : List F → Text → Text → Outcome (CalibrationResult F)
  unfolding fps
  statistics latencies_ms path prompt = do
    let xs = sorted latencies_ms
    m ← median xs
    p95 ← at xs (p95_idx F (length xs))
    lo ← at xs 0
    hi ← at xs (length xs - 1)
    ok (record {
      n_runs = length latencies_ms;
      median_latency_ms = m;
      p95_latency_ms = p95;
      min_latency_ms = lo;
      max_latency_ms = hi;
      median_fps = fps m;
      test_image_path = path;
      test_prompt = prompt;
    })

module _ {F : Type 0} ⦃fl : Float F⦄
    (run : ℕ → Bytes → Text → Value → Value → Outcome (InferenceResult F)) (clock : ℕ → F) where
  -- The loop over the runs from run `k` on.
  unfoldable pub latencies_from : ℕ → ℕ → Bytes → Text → Task → Outcome (List F)
  latencies_from zero k jpeg prompt task = ok []
  latencies_from (suc n) k jpeg prompt task = do
    result ← run k jpeg prompt (str (codes "hybrid")) (str (wire_name task))
    rest ← latencies_from n (k + 1) jpeg prompt task
    ok (clock k ∷ rest)

  unfoldable pub calibrate : ImageFile → Text → Text → ℕ → Outcome (CalibrationResult F)
  calibrate file path prompt n_runs = do
    jpeg ← read_image file
    ensure (ltb 0 n_runs) (value_error no_runs)
    task ← classified prompt
    warm ← run 0 jpeg prompt (str (codes "hybrid")) (str (wire_name task))
    ensure (is_recognized warm) (runtime_error no_output)
    latencies_ms ← latencies_from n_runs 1 jpeg prompt task
    statistics latencies_ms path prompt

module _ {F : Type 0} ⦃fl : Float F⦄ where
  -- `CalibrationResult.to_json`
  unfoldable pub to_json : CalibrationResult F → CalibrationResult F
  to_json r = record r {
    median_latency_ms = fl.round_to r.median_latency_ms 1;
    p95_latency_ms = fl.round_to r.p95_latency_ms 1;
    min_latency_ms = fl.round_to r.min_latency_ms 1;
    max_latency_ms = fl.round_to r.max_latency_ms 1;
    median_fps = fl.round_to r.median_fps 3;
  }
