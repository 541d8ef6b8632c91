-- ===== src/Tests/Clients.antt =====
-- The clients, on replies of the worker and on events.
use locate_anything_setup.Clients.Sender.{
  Cv, FrameHeader, fit, sender, returns, capture_thread, sender_id,
}
use locate_anything_setup.Clients.Sender.Messages.{encoded, IsIncreasing, sender-capture_thread}
use locate_anything_setup.Framing.{Bytes, frame, read_frame}
use locate_anything_setup.Prelude.{
  ℕ, ◌≡◌, ◌≤◌, ◌<◌, refl, none, some, List, [], ◌∷◌, true, false, length, Option, arith, ◌+◌, ◌*◌,
  if◌then◌else◌, map, ◌==◌,
}
use locate_anything_setup.Text.{Text, codes}
use locate_anything_setup.Outcome.{str, ok}
use locate_anything_setup.Prompts.Requests.{hybrid}
use locate_anything_setup.Inference.Variant.{points}
use locate_anything_setup.Worker.Reply.{Body, success}
use locate_anything_setup.Worker.Infer.{Header, get, infer}
use locate_anything_setup.Clients.Wire.{wire_of, Wire, message}
use locate_anything_setup.Clients.Request.{Args, build_request}
use locate_anything_setup.Clients.Smoke.{reply_exit}
use locate_anything_setup.Clients.Smoke.Accepts.{infer-reply_exit}
use locate_anything_setup.Clients.Reference.{
  RunEnd, clean, failed, closed_error, closed_ok, Options, reconnect, receive,
}
use locate_anything_setup.Clients.Reference.Replies.{Logged, infer-receive}
use locate_anything_setup.Clients.Concurrency.{FrameEvent, frame_id_of, client_id_of}
use locate_anything_setup.Clients.Concurrency.Report
use locate_anything_setup.Clients.Concurrency.Report.{
  Stats, client_stats, clients_from, is_unfair, run,
}
use locate_anything_setup.Clients.Concurrency.Passed.{ClientAnswered, run-passed}
use locate_anything_setup.Tests.Base.{thousandths}
use locate_anything_setup.Tests.Engines.{a_jpeg, drone_reply, drone_answer, drone_point}
use locate_anything_setup.Tests.Workers.{quick_run}

abbrev smoke_header : Header
smoke_header =
    ("kind", str (codes "frame"))
    ∷ ("frame_id", str (codes "smoke-001"))
    ∷ ("prompt", str (codes "Point to: drone."))
    ∷ ("generation_mode", str (codes "hybrid"))
    ∷ ("prompt_task", str (codes "point"))
    ∷ []

abbrev drone_body : Body ℕ
drone_body = record {
  kind = points;
  frame_id = codes "smoke-001";
  raw_text = drone_answer;
  model_output_truncated = false;
  deviations_dropped = 0;
  image_size = (56, 28);
  resize_plan = drone_reply.resize_plan;
  generation_mode_used = hybrid;
  latency_ms = 12000;
  total_ms = 15000;
  box_list = none;
  point_list = some (drone_point ∷ []);
}

smoke_infer : infer quick_run true 15000 smoke_header a_jpeg ≡ ok (success drone_body)
unfolding infer get locate_anything_setup.Worker.Infer.check_request
    locate_anything_setup.Worker.Infer.required_key locate_anything_setup.Worker.Infer.check_prompt
    locate_anything_setup.Worker.Infer.check_mode locate_anything_setup.Worker.Infer.check_jpeg
    locate_anything_setup.Worker.Infer.reply_to thousandths
smoke_infer = refl

infer-reply_exit_example : reply_exit (some (codes "points")) (wire_of drone_body) ≡ 0
unfolding get
infer-reply_exit_example =
    infer-reply_exit quick_run true 15000 smoke_header a_jpeg drone_body smoke_infer refl

infer-receive_example : Logged points drone_body (receive (wire_of drone_body))
infer-receive_example =
    infer-receive quick_run true 15000 smoke_header a_jpeg drone_body smoke_infer

abbrev two_birds : Args
two_birds = record {
  task = codes "detection";
  categories = some (codes "drone,  bird");
  phrase = none;
  text = none;
  description = none;
}

abbrev patient : Options
patient = record { reconnect_delay = 3; max_consecutive_errors = 2; no_reconnect = false }

abbrev outage : List RunEnd
outage = failed ∷ clean ∷ closed_error ∷ failed ∷ closed_ok ∷ []

-- 3 seconds, and 1.5 behind the connection that ended well.
outage_delays : (reconnect patient 0 outage).0 ≡ 6 ∷ 3 ∷ 6 ∷ []
unfolding reconnect locate_anything_setup.Clients.Reference.delay
outage_delays = refl

-- Two clients with a frame each.
abbrev reply_for : Text → Wire ℕ
reply_for id = record (wire_of drone_body) { frame_id = some id }

abbrev calm_world : ℕ → Option (ℕ → FrameEvent ℕ)
calm_world i = some λ j. record {
  sent_at = 5000;
  recv_at = 6000 + 100 * i;
  arrival = message (reply_for (frame_id_of (client_id_of i) j));
}

abbrev two_clients : Report.Options ℕ
two_clients = record {
  args = two_birds;
  jpeg = a_jpeg;
  num_clients = 2;
  frames_per_client = 1;
  frame_timeout = 120000;
  fairness_ratio = 5000;
}

calm_run : run two_clients calm_world ≡ ok 0
unfolding run build_request locate_anything_setup.Text.strip locate_anything_setup.Text.is_space
    Report.all_failures clients_from locate_anything_setup.Clients.Concurrency.run_one_client
    frame_id_of client_id_of wire_of locate_anything_setup.Calibration.at
    locate_anything_setup.Calibration.sorted locate_anything_setup.Calibration.median thousandths
calm_run = refl

run-passed_example :
    ((k : ℕ) → k < 2 → ClientAnswered two_clients calm_world k)
    × ((stats : List (Stats ℕ)) × (client_stats (clients_from two_clients calm_world 0 2)
          ≡ ok stats)
        × (2 ≤ length stats → is_unfair 5000 stats ≡ ok false))
run-passed_example = run-passed two_clients calm_world calm_run

-- Frames by their sides; one of 5 pixels cannot be encoded.
abbrev square_cv : Cv ℕ
square_cv = record {
  size = λ n. (n, n);
  resize = λ n (w, h). w;
  imencode = λ n. if n == 5 then none else some (n ∷ n ∷ []);
}

abbrev short_dumps : FrameHeader ℕ → Bytes
short_dumps h = h.jpeg_len ∷ []

-- The third frame is the second message.
third_id : sender_id (codes "c") 2 ≡ codes "c-00000002"
unfolding sender_id
third_id = refl

sender-capture_thread_example :
    (returns (capture_thread ℕ square_cv 8 true (7 ∷ 5 ∷ 6 ∷ [])) ≡ true)
    × (map read_frame (
          sender square_cv short_dumps
            (codes "c")
            0
            (codes "fast")
            (capture_thread ℕ square_cv 8 true (7 ∷ 5 ∷ 6 ∷ [])))
        ≡ frame (2 ∷ []) (7 ∷ 7 ∷ []) ∷ frame (2 ∷ []) (6 ∷ 6 ∷ []) ∷ [])
    × IsIncreasing ℕ square_cv 8 short_dumps
        (codes "c")
        0
        (codes "fast")
        ((0, 7 ∷ 7 ∷ []) ∷ (2, 6 ∷ 6 ∷ []) ∷ [])
unfolding encoded fit locate_anything_setup.Clients.Sender.header_of
sender-capture_thread_example =
    sender-capture_thread ℕ square_cv 8 short_dumps (codes "c") 0 (codes "fast")
      (λ idx jpeg. omega arith) true (7 ∷ 5 ∷ 6 ∷ [])
