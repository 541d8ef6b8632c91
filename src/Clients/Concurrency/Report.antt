-- ===== src/Clients/Concurrency/Report.antt =====
-- scripts/lib/concurrency_smoke_client.py, `run`: the clients together, the failures that are
-- counted, and the exit code.
use locate_anything_setup.Prelude.{
  ℕ, zero, suc, ◌+◌, ◌-◌, Bool, true, false, not, Option, List, [], ◌∷◌, ◌++◌, map, length, ltb,
  leb, ◌==◌, filter_if, if◌then◌else◌,
}
use locate_anything_setup.Text.{Text, is_empty, starts_with}
use locate_anything_setup.Float.{Float}
use locate_anything_setup.Outcome.{Outcome, ok, ◌>>=◌}
use locate_anything_setup.Calibration.{sorted, median, at}
use locate_anything_setup.Clients.Request.{Args, built, usage, build_request}
use locate_anything_setup.Clients.Concurrency.{
  RespType, result, FrameRecord, ClientResult, FrameEvent, client_id_of, run_one_client,
}

-- A line of the list `failures`.
pub data Failure : Type 0 where
  connect_failure : Failure
  frame_count : ℕ → Failure
  frame_failure : Text → RespType → Failure
  unfair : Failure

pub record Options (F : Type 0) : Type 0 where
  pub args : Args
  pub jpeg : Text
  pub num_clients : ℕ
  pub frames_per_client : ℕ
  pub frame_timeout : F
  pub fairness_ratio : F

abbrev pub is_result : RespType → Bool
is_result result = true
is_result _ = false

-- The statistics of a client, rounded.
pub record Stats (F : Type 0) : Type 0 where
  pub n : ℕ
  pub min_ms : F
  pub median_ms : F
  pub p95_ms : F
  pub max_ms : F

-- The exit for what the program cannot begin with, and for the failures of a run.
abbrev pub refused : Outcome ℕ
refused = ok 2

abbrev pub verdict : List Failure → Outcome ℕ
verdict failures = ok (if is_empty failures then 0 else 1)

module _ {F : Type 0} ⦃fl : Float F⦄ where
  -- The failure of a frame, if it is one.
  unfoldable pub frame_failures : FrameRecord F → List Failure
  frame_failures f = if is_result f.resp_type then [] else frame_failure f.frame_id f.resp_type ∷ []

  unfoldable pub all_frame_failures : List (FrameRecord F) → List Failure
  unfolding frame_failures
  all_frame_failures [] = []
  all_frame_failures (f ∷ fs) = frame_failures f ++ all_frame_failures fs

  -- The structural checks of a client.
  unfoldable pub client_failures : ℕ → ClientResult F → List Failure
  unfolding all_frame_failures
  client_failures per_client r =
      if r.connect_failed
      then connect_failure ∷ []
      else (if length r.frames == per_client then [] else frame_count (length r.frames) ∷ [])
        ++ all_frame_failures r.frames

  unfoldable pub structural_failures : ℕ → List (ClientResult F) → List Failure
  unfolding client_failures
  structural_failures per_client [] = []
  structural_failures per_client (r ∷ rs) =
      client_failures per_client r ++ structural_failures per_client rs

  -- `_p95`
  unfoldable pub p95 : List F → Outcome F
  p95 xs =
      let s = sorted xs in
      let idx = fl.trunc (fl.mul (fl.of_nat (length s)) (fl.div (fl.of_nat 95) (fl.of_nat 100))) in
      at s (if leb (length s) idx then length s - 1 else idx)

  unfoldable pub stats_of : List F → Outcome (Stats F)
  unfolding p95
  stats_of xs = do
    let s = sorted xs
    lo ← at s 0
    m ← median s
    p ← p95 xs
    hi ← at s (length s - 1)
    ok (record {
      n = length xs;
      min_ms = fl.round_to lo 1;
      median_ms = fl.round_to m 1;
      p95_ms = fl.round_to p 1;
      max_ms = fl.round_to hi 1;
    })

  unfoldable pub ok_latencies : ClientResult F → List F
  ok_latencies r =
      map (λ (f : FrameRecord F). f.latency_ms)
        (filter_if (λ (f : FrameRecord F). is_result f.resp_type) r.frames)

  -- The statistics of the clients that have any result.
  unfoldable pub client_stats : List (ClientResult F) → Outcome (List (Stats F))
  unfolding stats_of ok_latencies
  client_stats [] = ok []
  client_stats (r ∷ rs) = elim (ok_latencies r) [
    | [] ↦ client_stats rs
    | x ∷ xs ↦ (do s ← stats_of (x ∷ xs); rest ← client_stats rs; ok (s ∷ rest))
  ]

  -- The ratio of the largest median to the smallest is too large; 0 below is an infinite ratio.
  unfoldable pub is_unfair : F → List (Stats F) → Outcome Bool
  is_unfair fairness_ratio stats = do
    let medians = sorted (map (λ (s : Stats F). s.median_ms) stats)
    m_min ← at medians 0
    m_max ← at medians (length medians - 1)
    ok (if fl.lt (fl.of_nat 0) m_min then fl.lt fairness_ratio (fl.div m_max m_min) else true)

  unfoldable pub fairness_failures : F → List (Stats F) → Outcome (List Failure)
  unfolding is_unfair
  fairness_failures fairness_ratio stats =
      if leb 2 (length stats)
      then (do b ← is_unfair fairness_ratio stats; ok (if b then unfair ∷ [] else []))
      else ok []

  -- The results of the clients from `i` on, `left` of them; `worlds` is what arrives for a client.
  unfoldable pub clients_from :
      Options F → (ℕ → Option (ℕ → FrameEvent F)) → ℕ → ℕ → List (ClientResult F)
  clients_from opts worlds i zero = []
  clients_from opts worlds i (suc left) =
      run_one_client opts.frame_timeout opts.frames_per_client (client_id_of i) (worlds i)
      ∷ clients_from opts worlds (i + 1) left

  -- The failures of all, in their order.
  unfoldable pub all_failures : Options F → List (ClientResult F) → Outcome (List Failure)
  unfolding client_stats fairness_failures structural_failures
  all_failures opts rs = do
    stats ← client_stats rs
    unfairness ← fairness_failures opts.fairness_ratio stats
    ok (structural_failures opts.frames_per_client rs ++ unfairness)

  -- `run`, with the exit code.
  unfoldable pub run : Options F → (ℕ → Option (ℕ → FrameEvent F)) → Outcome ℕ
  unfolding starts_with
  run opts worlds =
      if not (starts_with (0xff ∷ 0xd8 ∷ 0xff ∷ []) opts.jpeg)
      then refused
      else if ltb opts.num_clients 2
      then refused
      else elim (build_request opts.args) [
        | usage u ↦ refused
        | built q ↦ (do
          failures ← all_failures opts (clients_from opts worlds 0 opts.num_clients)
          verdict failures)
      ]
