-- ===== src/Worker/App/Listens.antt =====
-- What a worker that listens on its socket has checked, loaded and measured before.
use locate_anything_setup.Prelude.{ℕ, ◌≡◌, refl, sym, ◌∙◌, subst, Option, some}
use mathlib.Core.List.{Memᴰ}
use locate_anything_setup.Prelude.Members.{All-Memᴰ}
use locate_anything_setup.Float.{Float}
use locate_anything_setup.Text.{codes}
use locate_anything_setup.Outcome.{Outcome, ok}
use locate_anything_setup.Calibration.{CalibrationResult, calibrate}
use locate_anything_setup.Startup.{passed}
use locate_anything_setup.Startup.Environment.{validate_env-attn_impl}
use locate_anything_setup.Startup.Boot.{run_all}
use locate_anything_setup.Startup.Boot.Passed.{run_all-passed}
use locate_anything_setup.Inference.Loading.{
  Load, done, refused, exited, raised, from_outcome, ◌>>=◌,
}
use locate_anything_setup.Inference.Loading.Chain.{
  >>=-done, from_outcome-done, from_validation-done,
}
use locate_anything_setup.Inference.Loading.Engine.{Engine, load_engine}
use locate_anything_setup.Inference.Loading.Engine.Ready.{IsReady, load_engine-IsReady}
use locate_anything_setup.Worker.App.{
  bound, Entries, fresh, System, Deployment, WorkerApp, prepare, start, main_async,
  compute_weight_manifest_sha256,
}
use locate_anything_setup.Worker.App.Socket.{IsPrivate, main_async-IsServed}

-- The worker whose parts came of the checks, the load and the calibration.
abbrev pub IsPrepared : {F N : Type 0} ⦃fl : Float F⦄ → Deployment F N → WorkerApp F → Type 0
IsPrepared d app =
    (run_all d.nums d.host ≡ passed)
    × (app.engine.attn_impl ≡ codes "sdpa")
    × IsReady d.num d.host.environ d.runtime app.engine
    × (calibrate (d.run app.engine) d.clock d.calibration_image d.image_path d.calibration_prompt
          d.calibration_runs
        ≡ ok app.calibration)

prepare-done :
    {F N : Type 0} ⦃fl : Float F⦄ (d : Deployment F N) (app : WorkerApp F)
    → prepare d ≡ done app
    → IsPrepared d app
unfolding prepare
prepare-done {F} {N} d app h =
    let made : Engine F → CalibrationResult F → Entries → WorkerApp F = λ engine calib entries.
      record {
        engine = engine;
        model_manifest_sha256 = compute_weight_manifest_sha256 d.sha256 entries;
        calibration = calib;
      } in
    let run_calibration : Engine F → Outcome (CalibrationResult F) = λ engine.
      calibrate (d.run engine) d.clock d.calibration_image d.image_path d.calibration_prompt
        d.calibration_runs in
    let k3 : Engine F → CalibrationResult F → Load (WorkerApp F) =
      λ engine calib. from_outcome d.entries >>= λ entries. done (made engine calib entries) in
    let k2 : Engine F → Load (WorkerApp F) =
      λ engine. from_outcome (run_calibration engine) >>= k3 engine in
    let loading = load_engine d.num d.host.environ (codes "cuda") d.runtime in
    let (valid, h1) = from_validation-done (run_all d.nums d.host) (loading >>= k2) app h in
    let (engine, e, h2) = >>=-done loading k2 app h1 in
    let (calib, c, h3) = from_outcome-done (run_calibration engine) (k3 engine) app h2 in
    let (entries, _, h4) =
      from_outcome-done d.entries (λ entries. done (made engine calib entries)) app h3 in
    let same : made engine calib entries ≡ app = cc in
    let ready = load_engine-IsReady d.num d.host.environ (codes "cuda") d.runtime engine e in
    let passes = run_all-passed d.nums d.host valid in
    let impl : some engine.attn_impl ≡ some (codes "sdpa") =
      sym ready.0 ∙ validate_env-attn_impl d.host.environ passes.0 in
    subst (IsPrepared d) same (valid, cc, ready, c)

-- A load that is done, or a process without a socket.
start-done :
    {F : Type 0} (load : Load (WorkerApp F)) (sys : System) (umask mode : ℕ) (socket : Option ℕ)
    → Memᴰ (bound mode) (start load sys (fresh umask socket)).0.events
    → (app : WorkerApp F) × (load ≡ done app)
start-done (done app) sys umask mode socket h = (app, refl)
start-done (exited v) sys umask mode socket h = elim h [ ]
start-done (refused r) sys umask mode socket h = elim h [ ]
start-done (raised e) sys umask mode socket h = elim h [ ]

-- Where the events of `main_async`, called without events, have a bind of the socket with some
-- mode, the mode is 0o660, and the worker was prepared: all checks at boot passed; the engine was
-- loaded with the attention `sdpa`, its parameters read from the environment, from a directory that
-- passed the check of its files once more; in its model the language side has that attention, the
-- vision side and every block of it `flash_attention_2`, and the attention of the first layer and
-- the `sdpa_attention` of the encoder are patched; and its calibration is that of the engine.
pub main_async-listens :
    {F N : Type 0} ⦃fl : Float F⦄ (d : Deployment F N) (sys : System) (umask : ℕ)
    (socket : Option ℕ) (mode : ℕ)
    → Memᴰ (bound mode) (main_async d sys (fresh umask socket)).0.events
    → (mode ≡ 432) × ((app : WorkerApp F) × IsPrepared d app)
unfolding main_async
main_async-listens d sys umask socket mode h =
    let (app, e) = start-done (prepare d) sys umask mode socket h in
    (
      All-Memᴰ IsPrivate (bound mode) (main_async d sys (fresh umask socket)).0.events
          (main_async-IsServed d sys umask socket).1 h,
      (app, prepare-done d app e),
    )
