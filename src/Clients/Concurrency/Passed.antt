-- ===== src/Clients/Concurrency/Passed.antt =====
-- What a run that exits by 0 has seen.
use locate_anything_setup.Prelude.{
  ℕ, zero, suc, ◌+◌, ◌≤◌, ◌<◌, ◌≡◌, refl, ap, ◌∙◌, Bool, true, false, Option, some, List, [], ◌∷◌,
  ◌++◌, length, ltb, leb, ◌==◌, ==_iff, if◌then◌else◌, All, Bool-cases, inl, inr, arith,
  Option-cases, ◌⊎◌, subst,
}
use locate_anything_setup.Text.{Text, is_empty, starts_with}
use native.Mathlib.Nat.{add-zero}
use locate_anything_setup.Float.{Float}
use locate_anything_setup.Outcome.{ok, >>=-eq-ok, ◌>>=◌}
use locate_anything_setup.Clients.Request.{build_request}
use locate_anything_setup.Clients.Concurrency.{
  FrameRecord, ClientResult, FrameEvent, Frame, recorded, last_one, raised, frame_id_of,
  client_id_of, frame_of, add_frame, frames_from, run_one_client,
}
use locate_anything_setup.Clients.Concurrency.Report.{
  Failure, Options, is_result, Stats, frame_failures, all_frame_failures, client_failures,
  structural_failures, client_stats, is_unfair, fairness_failures, clients_from, all_failures, run,
  unfair,
}
use locate_anything_setup.Clients.Concurrency.Frames.{
  Answered, Passes, append-empty, by_guards, frame_of-Passes,
}

module _ {F : Type 0} ⦃fl : Float F⦄ where
  all_frame_failures-none :
      (fs : List (FrameRecord F))
      → all_frame_failures fs ≡ []
      → All (λ f. is_result f.resp_type ≡ true) fs
  unfolding all_frame_failures frame_failures
  all_frame_failures-none [] h = tt
  all_frame_failures-none (f ∷ fs) h = elim (Bool-cases (is_result f.resp_type)) [
    | inl e ↦ (e, all_frame_failures-none fs (rw (e, all_frame_failures, frame_failures) at h))
    | inr e ↦
        (let no_way : false ≡ true =
            ap is_empty (rw (e, all_frame_failures, frame_failures) at h) in
          cc)
  ]

  -- No failure of a client.
  abbrev Whole : ℕ → ClientResult F → Type 0
  Whole n r =
      (r.connect_failed ≡ false)
      × (length r.frames ≡ n)
      × All (λ f. is_result f.resp_type ≡ true) r.frames

  client_failures-none : (n : ℕ) (r : ClientResult F) → client_failures n r ≡ [] → Whole n r
  unfolding client_failures
  client_failures-none n r h = elim (Bool-cases r.connect_failed) [
    | inl e ↦ (let no_way : false ≡ true = ap is_empty (rw e at h) in cc)
    | inr e ↦ elim (Bool-cases (length r.frames == n)) [
      | inl k ↦ (e, (==_iff _ _).0 k, all_frame_failures-none r.frames (rw (e, k) at h))
      | inr k ↦ (let no_way : false ≡ true = ap is_empty (rw (e, k) at h) in cc)
    ]
  ]

  -- The events of the frames from `i` on.
  abbrev pub AllAnswered : Text → (ℕ → FrameEvent F) → ℕ → ℕ → Type 0
  AllAnswered client_id events i zero = Unit {0}
  AllAnswered client_id events i (suc left) =
      Answered (frame_id_of client_id i) (events i) × AllAnswered client_id events (i + 1) left

  add_frame-Whole :
      (fr : Frame F) (rest : ClientResult F) (n : ℕ)
      → Whole (suc n) (add_frame fr rest)
      → Passes fr × ((n ≡ 0) ⊎ Whole n rest)
  unfolding add_frame
  add_frame-Whole (recorded r) rest n (c, k, (p, ps)) = (p, inr (c, omega arith, ps))
  add_frame-Whole (last_one r) rest n (c, k, (p, ps)) = (p, inl (omega arith))
  add_frame-Whole raised rest n (c, k, ps) = cc

  frames_from-Whole :
      (wait : F) (client_id : Text) (events : ℕ → FrameEvent F) (i left : ℕ)
      → Whole left (frames_from wait client_id events i left)
      → AllAnswered client_id events i left
  unfolding frames_from
  frames_from-Whole wait client_id events i zero h = tt
  frames_from-Whole wait client_id events i (suc left) h =
      let (p, more) =
        add_frame-Whole (frame_of wait (frame_id_of client_id i) (events i))
          (frames_from wait client_id events (i + 1) left) left h in
      (
        frame_of-Passes wait (frame_id_of client_id i) (events i) p,
        elim more [
          | inl none_left ↦ rw none_left tt
          | inr whole ↦ frames_from-Whole wait client_id events (i + 1) left whole
        ],
      )

  structural_failures-none :
      (n : ℕ) (rs : List (ClientResult F)) → structural_failures n rs ≡ [] → All (Whole n) rs
  unfolding structural_failures
  structural_failures-none n [] h = tt
  structural_failures-none n (r ∷ rs) h =
      let (one, others) =
        append-empty (client_failures n r) (structural_failures n rs) (rw h refl) in
      (client_failures-none n r one, structural_failures-none n rs others)

  -- Every client has been answered on every frame.
  abbrev pub ClientAnswered : Options F → (ℕ → Option (ℕ → FrameEvent F)) → ℕ → Type 0
  ClientAnswered opts worlds i =
      (events : ℕ → FrameEvent F) × (worlds i ≡ some events)
      × AllAnswered (client_id_of i) events 0 opts.frames_per_client

  run_one_client-Whole :
      (opts : Options F) (worlds : ℕ → Option (ℕ → FrameEvent F)) (i : ℕ)
      → Whole opts.frames_per_client
          (run_one_client opts.frame_timeout opts.frames_per_client (client_id_of i) (worlds i))
      → ClientAnswered opts worlds i
  unfolding run_one_client
  run_one_client-Whole opts worlds i h = elim (Option-cases (worlds i)) [
    | inl e ↦ (let no_way : true ≡ false = (rw (e, run_one_client) at h).0 in cc)
    | inr (events, e) ↦ (
      events,
      e,
      frames_from-Whole opts.frame_timeout (client_id_of i) events 0 opts.frames_per_client
          (rw (e, run_one_client) at h),
    )
  ]

  clients_from-Whole :
      (opts : Options F) (worlds : ℕ → Option (ℕ → FrameEvent F)) (i left k : ℕ)
      → All (Whole opts.frames_per_client) (clients_from opts worlds i left)
      → k < left
      → ClientAnswered opts worlds (i + k)
  unfolding clients_from
  clients_from-Whole opts worlds i zero k h l = absurd (omega arith)
  clients_from-Whole opts worlds i (suc left) zero (h, hs) l =
      rw add-zero (run_one_client-Whole opts worlds i h)
  clients_from-Whole opts worlds i (suc left) (suc k) (h, hs) l =
      subst (ClientAnswered opts worlds) (omega arith)
        (clients_from-Whole opts worlds (i + 1) left k hs (omega arith))

  all_failures-none :
      (opts : Options F) (rs : List (ClientResult F)) (fs : List Failure)
      → all_failures opts rs ≡ ok fs
      → is_empty fs ≡ true
      → All (Whole opts.frames_per_client) rs
        × ((stats : List (Stats F)) × (client_stats rs ≡ ok stats)
            × (fairness_failures opts.fairness_ratio stats ≡ ok []))
  unfolding all_failures
  all_failures-none opts rs fs h e =
      let (stats, s, h1) = >>=-eq-ok (client_stats rs) _ fs h in
      let (unfairness, u, h2) = >>=-eq-ok (fairness_failures opts.fairness_ratio stats) _ fs h1 in
      let same : structural_failures opts.frames_per_client rs ++ unfairness ≡ fs = cc in
      let (structure, fair) =
        append-empty (structural_failures opts.frames_per_client rs) unfairness
          (ap is_empty same ∙ e) in
      (structural_failures-none opts.frames_per_client rs structure, (stats, s, u ∙ ap ok fair))

  fairness_failures-none :
      (ratio : F) (stats : List (Stats F))
      → fairness_failures ratio stats ≡ ok []
      → 2 ≤ length stats
      → is_unfair ratio stats ≡ ok false
  unfolding fairness_failures
  fairness_failures-none ratio stats h l =
      let h1 : (is_unfair ratio stats >>= λ b. ok (if b then unfair ∷ [] else [])) ≡ ok [] =
        rw (two_le l) at h in
      let (b, e, q) = >>=-eq-ok (is_unfair ratio stats) _ [] h1 in e ∙ ap ok (quiet b q)
    where
      two_le : 2 ≤ length stats → leb 2 (length stats) ≡ true
      two_le k = ground arith

      quiet : (b : Bool) → ok (if b then unfair ∷ [] else []) ≡ ok [] → b ≡ false
      quiet true q = cc
      quiet false q = refl

  -- The rest of a run, once it is not refused.
  run-clients :
      (opts : Options F) (worlds : ℕ → Option (ℕ → FrameEvent F))
      → run opts worlds ≡ ok 0
      → (fs : List Failure) × (all_failures opts (clients_from opts worlds 0 opts.num_clients)
          ≡ ok fs)
        × (is_empty fs ≡ true)
  unfolding run
  run-clients opts worlds h =
      by_guards (starts_with (0xff ∷ 0xd8 ∷ 0xff ∷ []) opts.jpeg) (ltb opts.num_clients 2)
        (build_request opts.args) (all_failures opts (clients_from opts worlds 0 opts.num_clients))
        h

  -- Where the concurrency client exits by 0, every client got, for every frame it was to send, an
  -- object of a success variant with the id of that frame; and where two clients or more have
  -- statistics, their medians pass the test of fairness.
  pub run-passed :
      (opts : Options F) (worlds : ℕ → Option (ℕ → FrameEvent F))
      → run opts worlds ≡ ok 0
      → ((k : ℕ) → k < opts.num_clients → ClientAnswered opts worlds k)
        × ((stats : List (Stats F)) × (client_stats (clients_from opts worlds 0 opts.num_clients)
              ≡ ok stats)
            × (2 ≤ length stats → is_unfair opts.fairness_ratio stats ≡ ok false))
  run-passed opts worlds h =
      let (fs, e, none_failed) = run-clients opts worlds h in
      let (whole, (stats, s, fair)) = all_failures-none opts _ fs e none_failed in
      (
        λ k l.
            subst (ClientAnswered opts worlds) (omega arith)
              (clients_from-Whole opts worlds 0 opts.num_clients k whole l),
        (stats, s, fairness_failures-none opts.fairness_ratio stats fair),
      )
