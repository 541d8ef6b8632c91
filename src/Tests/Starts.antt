-- ===== src/Tests/Starts.antt =====
-- The start of a worker on a host that passes all checks, and its shutdown.
use locate_anything_setup.Prelude.{
  ℕ, ◌≡◌, refl, sym, subst, true, false, Option, none, some, List, [], ◌∷◌, ◌++◌, ◌≤◌, ◌*◌, ◌%◌,
  arith,
}
use locate_anything_setup.Worker.App.{
  Event, bound, World, End, fresh, System, Deployment, WorkerApp, prepare, main_async, removed,
  compute_weight_manifest_sha256,
}
use mathlib.Core.List.{Memᴰ}
use locate_anything_setup.Text.{Text, codes}
use locate_anything_setup.Outcome.{ok}
use locate_anything_setup.Worker.App.Socket.{all_events}
use locate_anything_setup.Worker.App.Listens.{IsPrepared, main_async-listens}
use locate_anything_setup.Inference.Loading.{done}
use locate_anything_setup.Calibration.{contents}
use locate_anything_setup.Worker.Capabilities.Limits.{capabilities-plan_resize}
use locate_anything_setup.Pixel.{total_patches}
use locate_anything_setup.Tests.Pixels.{small_plan, small_plan_made}
use locate_anything_setup.Tests.Base.{thousandths}
use locate_anything_setup.Tests.Engines.{a_jpeg}
use locate_anything_setup.Tests.Calibrations.{
  any_run, stopwatch, point_to_drone, three_runs, calibrated,
}
use locate_anything_setup.Tests.Startups.{tenths, numerals, good_host, good_host_passed}
use locate_anything_setup.Tests.Loadings.{runtime, loaded_engine, loaded_engine_done}

abbrev model_entries : List (Text × Option ℕ)
model_entries = (codes "a.bin", some 10) ∷ (codes "sub", none) ∷ []

abbrev deployment : Deployment ℕ ℕ
deployment = record {
  nums = tenths;
  num = numerals;
  host = good_host;
  runtime = runtime;
  run = λ engine. any_run;
  clock = stopwatch;
  calibration_image = contents a_jpeg;
  image_path = [];
  calibration_prompt = point_to_drone;
  calibration_runs = 3;
  entries = ok model_entries;
  sha256 = λ t. t;
}

abbrev ready_app : WorkerApp ℕ
ready_app = record {
  engine = loaded_engine;
  model_manifest_sha256 = some (codes "a.bin:10" ++ 10 ∷ []);
  calibration = three_runs;
}

abbrev calm_system : System
calm_system = record {
  unlink_stale = removed;
  is_bound = true;
  is_chmodded = true;
  is_cancelled = false;
  is_drained = true;
  unlink_last = removed;
}

-- The lines of a file system with one file and one directory.
entries_hashed :
    compute_weight_manifest_sha256 (λ t. t) model_entries ≡ ready_app.model_manifest_sha256
unfolding compute_weight_manifest_sha256 locate_anything_setup.Worker.App.files_of
    locate_anything_setup.Worker.App.manifest_text
entries_hashed = refl

prepared : prepare deployment ≡ done ready_app
unfolding prepare compute_weight_manifest_sha256 locate_anything_setup.Worker.App.files_of
    locate_anything_setup.Worker.App.manifest_text
prepared = rw (good_host_passed, loaded_engine_done, calibrated) refl

-- A run from the stale socket to the signal.
calm_run : World × End
calm_run = main_async deployment calm_system (fresh 18 (some 511))

calm_events : calm_run.0.events ≡ all_events true
unfolding calm_run main_async locate_anything_setup.Worker.App.serve_socket
    locate_anything_setup.Worker.App.remove_stale locate_anything_setup.Worker.App.unlink
    locate_anything_setup.Worker.App.bind_and_listen locate_anything_setup.Worker.App.bind
    locate_anything_setup.Worker.App.listen locate_anything_setup.Worker.App.shut_down
calm_events = rw prepared refl

main_async-listens_example : ◌≡◌ {A = ℕ} 432 432 × ((app : WorkerApp ℕ) × IsPrepared deployment app)
unfolding calm_run
main_async-listens_example =
    main_async-listens deployment calm_system 18 (some 511) 432
      (subst (Memᴰ (bound 432)) (sym calm_events) (Memᴰ.head refl))

capabilities-plan_resize_example :
    (total_patches 640 480 ≤ 25600)
    × (small_plan.n_llm_tokens ≤ 6400)
    × (small_plan.n_patches_w * 14 ≡ small_plan.dst_w)
    × (small_plan.n_patches_h * 14 ≡ small_plan.dst_h)
    × (small_plan.dst_w % 28 ≡ 0)
    × (small_plan.dst_h % 28 ≡ 0)
unfolding locate_anything_setup.Worker.Capabilities.capabilities
capabilities-plan_resize_example =
    capabilities-plan_resize [] ready_app 640 480 small_plan small_plan_made (omega arith)
      (omega arith)
