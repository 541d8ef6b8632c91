-- ===== src/Tests/Calibrations.antt =====
-- A calibration of three runs.
use locate_anything_setup.Prelude.{
  ℕ, ◌≡◌, ◌<◌, refl, List, [], length, All, true, if◌then◌else◌, ◌==◌,
}
use mathlib.Core.List.{Memᴰ}
use locate_anything_setup.Text.{Text, codes}
use locate_anything_setup.Float.{◌≼◌}
use locate_anything_setup.Outcome.{Value, str, Outcome, ok}
use locate_anything_setup.Prompts.{Task, wire_name}
use locate_anything_setup.Inference.Image.{Bytes}
use locate_anything_setup.Inference.Variant.{InferenceResult}
use locate_anything_setup.Calibration.{
  CalibrationResult, ImageFile, contents, read_image, is_recognized, latencies_from, calibrate,
}
use locate_anything_setup.Calibration.Statistics.{calibrate-Statistics}
use locate_anything_setup.Tests.Base.{thousandths, thousandths-IsOrder}
use locate_anything_setup.Tests.Engines.{a_jpeg, drone_reply}

abbrev pub any_run : ℕ → Bytes → Text → Value → Value → Outcome (InferenceResult ℕ)
any_run k jpeg prompt mode task = ok drone_reply

-- Runs 1, 2 and 3 take 3, 1 and 2 milliseconds.
abbrev pub stopwatch : ℕ → ℕ
stopwatch k = if k == 1 then 3000 else if k == 2 then 1000 else 2000

abbrev pub point_to_drone : Text
point_to_drone = codes "Point to: drone."

abbrev pub three_runs : CalibrationResult ℕ
three_runs = record {
  n_runs = 3;
  median_latency_ms = 2000;
  p95_latency_ms = 3000;
  min_latency_ms = 1000;
  max_latency_ms = 3000;
  median_fps = 500000;
  test_image_path = [];
  test_prompt = point_to_drone;
}

pub calibrated : calibrate any_run stopwatch (contents a_jpeg) [] point_to_drone 3 ≡ ok three_runs
unfolding calibrate thousandths read_image locate_anything_setup.Calibration.classified
    locate_anything_setup.Prompts.classify_prompt is_recognized latencies_from
    locate_anything_setup.Calibration.statistics locate_anything_setup.Calibration.median
    locate_anything_setup.Calibration.sorted locate_anything_setup.Calibration.p95_idx
calibrated = refl

calibrate-Statistics_example :
    (jpeg : Bytes) × (task : Task) × (warm : InferenceResult ℕ) × (ls : List ℕ) × (read_image
        (contents a_jpeg)
      ≡ ok jpeg)
    × (any_run 0 jpeg point_to_drone (str (codes "hybrid")) (str (wire_name task)) ≡ ok warm)
    × (is_recognized warm ≡ true)
    × (latencies_from any_run stopwatch 3 1 jpeg point_to_drone task ≡ ok ls)
    × (0 < 3)
    × (length ls ≡ 3)
    × (three_runs.n_runs ≡ 3)
    × All (λ x. ◌≼◌ {F = ℕ} 1000 x) ls
    × All (λ x. ◌≼◌ {F = ℕ} x 3000) ls
    × Memᴰ 3000 ls
calibrate-Statistics_example =
    calibrate-Statistics any_run stopwatch thousandths-IsOrder (contents a_jpeg) [] point_to_drone 3
      three_runs calibrated
