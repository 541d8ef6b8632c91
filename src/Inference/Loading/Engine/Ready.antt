-- ===== src/Inference/Loading/Engine/Ready.antt =====
-- The engine that `LocateAnythingInference.__init__` makes.
use locate_anything_setup.Prelude.{◌≡◌, some, subst}
use locate_anything_setup.Text.{Text}
use locate_anything_setup.Outcome.{ok}
use locate_anything_setup.Inference.Config.{Environ, Numerals, GenConfig, require_env, from_env}
use locate_anything_setup.Startup.{passed}
use locate_anything_setup.Startup.Files.{validate_model_dir}
use locate_anything_setup.Inference.Loading.{done, from_outcome, ◌>>=◌, ◌>>◌}
use locate_anything_setup.Inference.Loading.Chain.{>>=-done, from_outcome-done}
use locate_anything_setup.Inference.Loading.Vision.{Config}
use locate_anything_setup.Inference.Loading.Engine.{
  Model, Runtime, Engine, parse_dtype, check_gpu, verify_loaded, patch_model, configure,
  load_engine,
}
use locate_anything_setup.Inference.Loading.Engine.Verified.{
  IsOverridden, IsVerified, IsPatchedModel, require_env-ok, configure-done, verify_loaded-done,
  patch_model-done,
}

-- What is promised of an engine: where its parameters come of, the directory and the configuration
-- that its model was loaded with, and the attention of that model.
abbrev pub IsReady : {F : Type 0} → Numerals F → Environ → Runtime → Engine F → Type 0
IsReady num env rt engine =
    (env "LA_ATTN_IMPL" ≡ some engine.attn_impl)
    × (from_env num env ≡ ok engine.gen_cfg)
    × (validate_model_dir rt.model_dir ≡ passed)
    × ((config : Config) × (model : Model) × (rt.auto_model config ≡ ok model)
        × IsOverridden engine.attn_impl config)
    × IsVerified engine.attn_impl engine.model
    × IsPatchedModel engine.model

-- An engine that is loaded has its attention and its parameters from the environment; the model
-- directory passed the check of its files; its model was loaded with a configuration that has that
-- attention at the top and for the text, and the forced one for vision; the model has that
-- attention on the language side, and `flash_attention_2` on the vision side and in every block;
-- and the attention of the first layer and the `sdpa_attention` of the encoder are patched.
pub load_engine-IsReady :
    {F : Type 0} (num : Numerals F) (env : Environ) (device : Text) (rt : Runtime)
    (engine : Engine F)
    → load_engine num env device rt ≡ done engine
    → IsReady num env rt engine
unfolding load_engine
load_engine-IsReady {F} num env device rt engine h =
    let made : Text → GenConfig F → Model → Engine F =
      λ impl g m. record { attn_impl = impl; gen_cfg = g; model = m } in
    let k7 = λ (impl : Text) (g : GenConfig F) (m : Model).
      patch_model rt.new_id m >>= λ n. done (made impl g n) in
    let k6 = λ (impl : Text) (g : GenConfig F) (m : Model). verify_loaded impl m >> k7 impl g m in
    let k5 = λ (impl : Text) (g : GenConfig F) (c : Config).
      from_outcome (rt.auto_model c) >>= k6 impl g in
    let k4 = λ (impl : Text) (g : GenConfig F). configure impl rt >>= k5 impl g in
    let k3 = λ (impl : Text) (g : GenConfig F). check_gpu device rt >> k4 impl g in
    let k2 = λ (impl : Text). from_outcome (from_env num env) >>= k3 impl in
    let k1 =
      λ (d : Text). parse_dtype d >> (from_outcome (require_env env "LA_ATTN_IMPL") >>= k2) in
    let (d, _, h1) = from_outcome-done (require_env env "LA_MODEL_DTYPE") k1 engine h in
    let (u, _, h2) =
      >>=-done (parse_dtype d) (λ _. from_outcome (require_env env "LA_ATTN_IMPL") >>= k2) engine
        h1 in
    let (impl, i, h3) = from_outcome-done (require_env env "LA_ATTN_IMPL") k2 engine h2 in
    let (g, j, h4) = from_outcome-done (from_env num env) (k3 impl) engine h3 in
    let (w, _, h5) = >>=-done (check_gpu device rt) (λ _. k4 impl g) engine h4 in
    let (config, c, h6) = >>=-done (configure impl rt) (k5 impl g) engine h5 in
    let (model, m, h7) = from_outcome-done (rt.auto_model config) (k6 impl g) engine h6 in
    let (x, v, h8) = >>=-done (verify_loaded impl model) (λ _. k7 impl g model) engine h7 in
    let (new, p, h9) =
      >>=-done (patch_model rt.new_id model) (λ n. done (made impl g n)) engine h8 in
    let same : made impl g new ≡ engine = cc in
    let (dir, overridden) = configure-done impl rt config c in
    let (verified, patched_model) =
      patch_model-done rt.new_id impl model new (verify_loaded-done impl model v) p in
    subst (IsReady num env rt) same (
      require_env-ok env "LA_ATTN_IMPL" impl i,
      j,
      dir,
      (config, model, m, overridden),
      verified,
      patched_model,
    )
