-- ===== src/Worker/App.antt =====
-- worker/la_worker.py, `main_async`: the start of the worker, its socket, and its shutdown. What the
-- system does at each call is a parameter.
pub mod Listens
pub mod Socket
pub mod Returns
use locate_anything_setup.Prelude.{
  ℕ, ◌-◌, Bool, true, false, not, Option, none, some, List, [], ◌∷◌, ◌++◌, String, if◌then◌else◌,
}
use locate_anything_setup.Float.{Float}
use locate_anything_setup.Text.{Text, codes, is_empty}
use locate_anything_setup.Outcome.{Value, Outcome, ok, raise}
use locate_anything_setup.Inference.Config.{Numerals}
use locate_anything_setup.Inference.Image.{Bytes}
use locate_anything_setup.Inference.Variant.{InferenceResult}
use locate_anything_setup.Inference.Loading.{
  Load, done, refused, exited, raised, ◌>>=◌, ◌>>◌, from_outcome, from_validation,
}
use locate_anything_setup.Inference.Loading.Engine.{Engine, Runtime, load_engine}
use locate_anything_setup.Calibration.{CalibrationResult, ImageFile, calibrate}
use locate_anything_setup.Startup.System.{Numbers}
use locate_anything_setup.Startup.Boot.{Host, run_all}
use locate_anything_setup.Clients.Concurrency.{digits_of}

-- The entries of the model directory in the order of `sorted`; a size is none if it is no file.
abbrev pub Entries : Type 0
Entries = List (Text × Option ℕ)

unfoldable pub files_of : Entries → List (Text × ℕ)
files_of [] = []
files_of ((name, size) ∷ rest) =
    let others = files_of rest in elim size [ none ↦ others | some sz ↦ (name, sz) ∷ others ]

-- What is hashed: `f"{name}:{sz}\n"`, one after the other.
unfoldable pub manifest_text : List (Text × ℕ) → Text
unfolding digits_of
manifest_text [] = []
manifest_text ((name, sz) ∷ rest) = name ++ b':' ∷ digits_of sz sz ++ 10 ∷ manifest_text rest

unfoldable pub compute_weight_manifest_sha256 : (Text → Text) → Entries → Option Text
compute_weight_manifest_sha256 sha256 entries =
    let items = files_of entries in
    if is_empty items then none else some (sha256 (manifest_text items))

-- What an `unlink` does.
pub data Unlink : Type 0 where
  removed not_found denied : Unlink

pub data Event : Type 0 where
  bound : ℕ → Event
  stopped closed drained drain_timeout executor_shutdown : Event

-- The umask of the process, the mode of the file at the path of the socket, and what was done.
pub record World : Type 0 where
  pub umask : ℕ
  pub socket : Option ℕ
  pub events : List Event

pub data End : Type 0 where
  returned : ℕ → End
  left : ℕ → End
  crashed : End

-- The process when `main_async` is called.
abbrev pub fresh : ℕ → Option ℕ → World
fresh umask socket = record { umask = umask; socket = socket; events = [] }

-- What the system does: the calls that may fail, and whether the wait for a signal is cancelled.
pub record System : Type 0 where
  pub unlink_stale : Unlink
  pub is_bound : Bool
  pub is_chmodded : Bool
  pub is_cancelled : Bool
  pub is_drained : Bool
  pub unlink_last : Unlink

-- What `main_async` reads and calls in front of the socket.
pub record Deployment (F N : Type 0) : Type 0 where
  pub nums : Numbers N
  pub num : Numerals F
  pub host : Host N
  pub runtime : Runtime
  pub run : Engine F → ℕ → Bytes → Text → Value → Value → Outcome (InferenceResult F)
  pub clock : ℕ → F
  pub calibration_image : ImageFile
  pub image_path : Text
  pub calibration_prompt : Text
  pub calibration_runs : ℕ
  pub entries : Outcome Entries
  pub sha256 : Text → Text

-- `WorkerApp`
pub record WorkerApp (F : Type 0) : Type 0 where
  pub engine : Engine F
  pub model_manifest_sha256 : Option Text
  pub calibration : CalibrationResult F

-- The part of `main_async` in front of the socket.
unfoldable pub prepare : {F N : Type 0} ⦃fl : Float F⦄ → Deployment F N → Load (WorkerApp F)
prepare d = do
  from_validation (run_all d.nums d.host)
  engine ← load_engine d.num d.host.environ (codes "cuda") d.runtime
  calib ← from_outcome (
      calibrate (d.run engine) d.clock d.calibration_image d.image_path d.calibration_prompt
        d.calibration_runs)
  entries ← from_outcome d.entries
  done (record {
    engine = engine;
    model_manifest_sha256 = compute_weight_manifest_sha256 d.sha256 entries;
    calibration = calib;
  })

-- `unlink` with `except FileNotFoundError: pass`; none is another error.
unfoldable pub unlink : Unlink → World → Option World
unlink removed w = some (record w { socket = none })
unlink not_found w = some (record w { socket = none })
unlink denied w = none

unfoldable pub remove_stale : System → World → Option World
remove_stale sys w = elim w.socket [ none ↦ some w | some mode ↦ unlink sys.unlink_stale w ]

abbrev pub log : Event → World → World
log e w = record w { events = w.events ++ e ∷ [] }

-- `start_unix_server`: the file gets the bits of 0o777 that the umask leaves; each umask is of these.
abbrev pub start_unix_server : System → World → World × Bool
start_unix_server sys w =
    if sys.is_bound
    then (record (log (bound (511 - w.umask)) w) { socket = some (511 - w.umask) }, true)
    else (w, false)

-- `old_umask = os.umask(0o117)`, the bind, and `os.umask(old_umask)` in `finally`.
unfoldable pub bind : System → World → World × Bool
bind sys w =
    let (bound_world, is_bound) = start_unix_server sys (record w { umask = 79 }) in
    (record bound_world { umask = w.umask }, is_bound)

-- The `finally` of the wait for a signal.
unfoldable pub shut_down : System → World → World
shut_down sys w =
    log executor_shutdown (log (if sys.is_drained then drained else drain_timeout) (log closed w))

-- Behind a bind: `chmod` to 0o660, the wait, the shutdown, and the last `unlink`.
unfoldable pub listen : System → World → World × End
listen sys w =
    if not sys.is_chmodded
    then (w, crashed)
    else let open_world = record w { socket = some 432 } in
      if sys.is_cancelled
      then (shut_down sys open_world, crashed)
      else let down = shut_down sys (log stopped open_world) in
        elim (unlink sys.unlink_last down) [
          | none ↦ (down, crashed)
          | some end_world ↦ (end_world, returned 0)
        ]

unfoldable pub bind_and_listen : System → World → World × End
bind_and_listen sys w =
    let (bound_world, is_bound) = bind sys w in
    if is_bound then listen sys bound_world else (bound_world, crashed)

-- The part of `main_async` from the stale socket on.
unfoldable pub serve_socket : System → World → World × End
serve_socket sys w = elim (remove_stale sys w) [
  | none ↦ (w, crashed)
  | some clean ↦ bind_and_listen sys clean
]

-- What follows `prepare`; `fail` leaves by `sys.exit(1)`.
abbrev pub start : {F : Type 0} → Load (WorkerApp F) → System → World → World × End
start (done app) sys w = serve_socket sys w
start (exited v) sys w = (w, left 1)
start (refused r) sys w = (w, crashed)
start (raised e) sys w = (w, crashed)

unfoldable pub main_async :
    {F N : Type 0} ⦃fl : Float F⦄ → Deployment F N → System → World → World × End
main_async d sys w = start (prepare d) sys w
