-- ===== src/Worker/App/Returns.antt =====
-- When `main_async` returns.
use locate_anything_setup.Prelude.{ℕ, ◌≡◌, ◌↔◌, Bool, true, false, not, ◌&&◌, Option, none, some}
use locate_anything_setup.Float.{Float}
use locate_anything_setup.Inference.Loading.{Load, done}
use locate_anything_setup.Worker.App.{Unlink, denied, World, End, returned, System}

abbrev pub is_done : {A : Type 0} → Load A → Bool
is_done (done a) = true
is_done _ = false

abbrev pub is_unlinked : Unlink → Bool
is_unlinked denied = false
is_unlinked _ = true

-- All calls succeed, and the wait ends by a signal.
abbrev pub is_calm : System → Bool
is_calm sys =
    sys.is_bound && (sys.is_chmodded && (not sys.is_cancelled && is_unlinked sys.unlink_last))

-- The stale socket, if there is one, can be removed.
abbrev pub is_cleared : Option ℕ → Unlink → Bool
is_cleared none u = true
is_cleared (some mode) u = is_unlinked u

abbrev Returns : Bool → World × End → Type 0
Returns b (w, end_) = (end_ ≡ returned 0) ↔ (b ≡ true)
