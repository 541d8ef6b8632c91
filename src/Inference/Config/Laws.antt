-- ===== src/Inference/Config/Laws.antt =====
-- What a configuration read from the environment is, and which arguments a mode has.
use locate_anything_setup.Prelude.{◌≡◌, refl, ◌⊎◌, ◌↔◌, inl, inr, none, some, arith, Option-cases}
use locate_anything_setup.Outcome.{Value, ok, raise, value_error, bad_mode}
use locate_anything_setup.Prompts.Requests.{Mode, slow}
use locate_anything_setup.Inference.Config.{GenConfig, Kwargs, checked_mode, kwargs_for, to_kwargs}

n_future_tokens_mode :
    {F : Type 0} (cfg : GenConfig F) (m : Mode)
    → ((kwargs_for cfg m).n_future_tokens ≡ none) ↔ (m ≡ slow)
unfolding kwargs_for
n_future_tokens_mode cfg m = ground arith

-- A mode that is not one of the three raises a ValueError; each of the three passes the limit of
-- tokens and the sampling switch on, and `n_future_tokens` is left out exactly in `slow`.
pub to_kwargs-cases :
    {F : Type 0} (cfg : GenConfig F) (v : Value)
    → ((checked_mode v ≡ none) × (to_kwargs cfg v ≡ raise (value_error bad_mode)))
      ⊎ ((k : Kwargs F) × (to_kwargs cfg v ≡ ok k)
          × (checked_mode v ≡ some k.generation_mode)
          × ((k.n_future_tokens ≡ none) ↔ (k.generation_mode ≡ slow))
          × (k.max_new_tokens ≡ cfg.max_new_tokens)
          × (k.do_sample ≡ cfg.do_sample))
unfolding to_kwargs
to_kwargs-cases cfg v = elim (Option-cases (checked_mode v)) [
  | inl e ↦ inl (e, rw (e, to_kwargs))
  | inr (m, e) ↦
      inr (kwargs_for cfg m, rw (e, to_kwargs), e, n_future_tokens_mode cfg m, refl, refl)
]
