-- ===== src/Worker/App/Socket.antt =====
-- The socket of the worker: its mode, the umask, and the shutdown.
use locate_anything_setup.Prelude.{
  ℕ, ◌≡◌, refl, Bool, true, false, Option, none, some, List, [], ◌∷◌, All, if◌then◌else◌,
}
use locate_anything_setup.Inference.Loading.{done, refused, exited, raised}
use locate_anything_setup.Worker.App.{
  Unlink, removed, not_found, denied, Event, bound, stopped, closed, drained, drain_timeout,
  executor_shutdown, World, End, returned, fresh, System, serve_socket, listen, shut_down, unlink,
  bind_and_listen, main_async, remove_stale, Float, bind, Deployment, prepare, start,
}

-- A bind with mode 0o660, or another event.
abbrev pub IsPrivate : Event → Type 0
IsPrivate (bound mode) = mode ≡ 432
IsPrivate _ = Unit

-- The events of a worker that is stopped by a signal.
abbrev pub all_events : Bool → List Event
all_events is_drained =
    bound 432
    ∷ stopped
    ∷ closed
    ∷ (if is_drained then drained else drain_timeout)
    ∷ executor_shutdown
    ∷ []

-- What an exit with a number leaves, and what an exit with an exception may leave.
abbrev pub IsTidy : Bool → World → End → Type 0
IsTidy is_drained w (returned n) = (n ≡ 0) × (w.socket ≡ none) × (w.events ≡ all_events is_drained)
IsTidy is_drained w _ = Unit

abbrev pub IsServed : ℕ → Bool → World × End → Type 0
IsServed umask is_drained (w, end_) =
    (w.umask ≡ umask) × All IsPrivate w.events × IsTidy is_drained w end_

abbrev pub system : Unlink → Bool → Bool → Bool → Bool → Unlink → System
system a b c d f e = record {
  unlink_stale = a;
  is_bound = b;
  is_chmodded = c;
  is_cancelled = d;
  is_drained = f;
  unlink_last = e;
}

listen-IsServed :
    (umask : ℕ) (a e : Unlink) (b c d f : Bool)
    → IsServed umask f (
        listen
          (system a b c d f e)
          (record { umask = umask; socket = some 432; events = bound 432 ∷ [] }))
unfolding listen shut_down unlink
listen-IsServed umask a e b false d f = (refl, (refl, tt), tt)
listen-IsServed umask a e b true true true = (refl, (refl, (tt, (tt, (tt, tt)))), tt)
listen-IsServed umask a e b true true false = (refl, (refl, (tt, (tt, (tt, tt)))), tt)
listen-IsServed umask a removed b true false true =
    (refl, (refl, (tt, (tt, (tt, (tt, tt))))), (refl, refl, refl))
listen-IsServed umask a removed b true false false =
    (refl, (refl, (tt, (tt, (tt, (tt, tt))))), (refl, refl, refl))
listen-IsServed umask a not_found b true false true =
    (refl, (refl, (tt, (tt, (tt, (tt, tt))))), (refl, refl, refl))
listen-IsServed umask a not_found b true false false =
    (refl, (refl, (tt, (tt, (tt, (tt, tt))))), (refl, refl, refl))
listen-IsServed umask a denied b true false true = (refl, (refl, (tt, (tt, (tt, (tt, tt))))), tt)
listen-IsServed umask a denied b true false false = (refl, (refl, (tt, (tt, (tt, (tt, tt))))), tt)

bind_and_listen-IsServed :
    (umask : ℕ) (a e : Unlink) (b c d f : Bool)
    → IsServed umask f (bind_and_listen (system a b c d f e) (fresh umask none))
unfolding bind_and_listen bind
bind_and_listen-IsServed umask a e false c d f = (refl, tt, tt)
bind_and_listen-IsServed umask a e true c d f = listen-IsServed umask a e true c d f

serve_socket-system :
    (umask : ℕ) (socket : Option ℕ) (a e : Unlink) (b c d f : Bool)
    → IsServed umask f (serve_socket (system a b c d f e) (fresh umask socket))
unfolding serve_socket remove_stale unlink
serve_socket-system umask none a e b c d f = bind_and_listen-IsServed umask a e b c d f
serve_socket-system umask (some mode) removed e b c d f =
    bind_and_listen-IsServed umask removed e b c d f
serve_socket-system umask (some mode) not_found e b c d f =
    bind_and_listen-IsServed umask not_found e b c d f
serve_socket-system umask (some mode) denied e b c d f = (refl, tt, tt)

pub serve_socket-IsServed :
    (umask : ℕ) (socket : Option ℕ) (sys : System)
    → IsServed umask sys.is_drained (serve_socket sys (fresh umask socket))
serve_socket-IsServed umask socket sys =
    serve_socket-system umask socket sys.unlink_stale sys.unlink_last sys.is_bound sys.is_chmodded
      sys.is_cancelled sys.is_drained

-- Every end of `main_async`.
pub main_async-IsServed :
    {F N : Type 0} ⦃fl : Float F⦄ (d : Deployment F N) (sys : System) (umask : ℕ)
    (socket : Option ℕ)
    → IsServed umask sys.is_drained (main_async d sys (fresh umask socket))
unfolding main_async
main_async-IsServed d sys umask socket =
    elim (prepare d) as (λ l. IsServed umask sys.is_drained (start l sys (fresh umask socket))) [
      | done app ↦ serve_socket-IsServed umask socket sys
      | exited v ↦ (refl, tt, tt)
      | refused r ↦ (refl, tt, tt)
      | raised e ↦ (refl, tt, tt)
    ]
