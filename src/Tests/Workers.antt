-- ===== src/Tests/Workers.antt =====
-- Requests to the worker, over a stub of the engine and of JSON.
use locate_anything_setup.Prelude.{
  ℕ, ◌≡◌, ◌≢◌, ◌⊎◌, refl, none, some, [], ◌∷◌, ◌++◌, true, false, arith,
}
use locate_anything_setup.Text.{Text, codes}
use locate_anything_setup.Outcome.{str, ok, raise, out_of_memory, timed_out, unknown_task}
use locate_anything_setup.Prompts.Requests.{hybrid}
use locate_anything_setup.Framing.{Bytes}
use locate_anything_setup.Inference.Engine.{task_of, run}
use locate_anything_setup.Worker.Reply.{error, error_text}
use locate_anything_setup.Worker.Infer.{
  Header, get, non_empty_str, pass, FrameRequest, check_request, Run, infer,
}
use locate_anything_setup.Worker.Infer.Blame.{infer-unknown_task}
use locate_anything_setup.Worker.Infer.Laws.{IsAnswer, infer-IsAnswer, infer_raises}
use locate_anything_setup.Worker.Serve.{Codec, object, Tick, serve, out_of_fuel}
use locate_anything_setup.Worker.Serve.Laws.{serve_ends}
use locate_anything_setup.Tests.Base.{thousandths}
use locate_anything_setup.Tests.Engines.{stub_pil, stub_model, defaults, a_jpeg, drone_reply}

abbrev header_for : Text → Header
header_for task =
    ("kind", str (codes "frame"))
    ∷ ("frame_id", str (codes "7"))
    ∷ ("prompt", str (codes "Point to: drone."))
    ∷ ("generation_mode", str (codes "hybrid"))
    ∷ ("prompt_task", str task)
    ∷ []

abbrev pub quick_run : Run ℕ
quick_run jpeg prompt mode task = ok drone_reply

abbrev oom_run : Run ℕ
oom_run jpeg prompt mode task = raise out_of_memory

infer-IsAnswer_example :
    IsAnswer (codes "7") (infer quick_run true 15000 (header_for (codes "point")) a_jpeg)
unfolding get
infer-IsAnswer_example = infer-IsAnswer quick_run true 15000 (header_for (codes "point")) a_jpeg

oom_infer : infer oom_run true 15000 (header_for (codes "point")) a_jpeg ≡ raise out_of_memory
unfolding infer get check_request locate_anything_setup.Worker.Infer.required_key
    locate_anything_setup.Worker.Infer.check_prompt locate_anything_setup.Worker.Infer.check_mode
    locate_anything_setup.Worker.Infer.check_jpeg locate_anything_setup.Worker.Infer.reply_to
oom_infer = refl

infer_raises_example :
    (q : FrameRequest) × (check_request (header_for (codes "point")) a_jpeg ≡ pass q)
    × (((true ≡ false) × (out_of_memory ≡ timed_out))
        ⊎ ((true ≡ true)
            × (oom_run a_jpeg q.prompt q.mode_value q.prompt_task ≡ raise out_of_memory)))
infer_raises_example =
    infer_raises oom_run true 15000 (header_for (codes "point")) a_jpeg out_of_memory oom_infer

abbrev odd_request : FrameRequest
odd_request = record {
  prompt = codes "Point to: drone.";
  mode = hybrid;
  mode_value = str (codes "hybrid");
  prompt_task = str (codes "count");
}

odd_passes : check_request (header_for (codes "count")) a_jpeg ≡ pass odd_request
unfolding check_request locate_anything_setup.Worker.Infer.required_key
    locate_anything_setup.Worker.Infer.check_prompt locate_anything_setup.Worker.Infer.check_mode
    locate_anything_setup.Worker.Infer.check_jpeg
odd_passes = refl

odd_unknown : task_of (str (codes "count")) ≡ none
unfolding task_of
odd_unknown = refl

odd_id : non_empty_str (get "frame_id" (header_for (codes "count"))) ≡ some (codes "7")
unfolding get
odd_id = refl

infer-unknown_task_example :
    infer (run stub_pil stub_model defaults 12000) true 15000 (header_for (codes "count")) a_jpeg
    ≡ ok (error (codes "7") "invalid_image" (error_text unknown_task))
infer-unknown_task_example =
    infer-unknown_task stub_pil stub_model defaults 12000 15000 (header_for (codes "count")) a_jpeg
      (codes "7") odd_request odd_id odd_passes odd_unknown

abbrev stub_codec : Codec ℕ
stub_codec = record {
  decode_utf8 = λ b. some b;
  loads = λ t. object (header_for t);
  dumps = λ r. 123 ∷ 125 ∷ [];
}

abbrev calm_tick : ℕ → Tick ℕ
calm_tick n = record {
  closing = false;
  in_time = true;
  total_ms = 15000;
  run = quick_run;
  query_capabilities = ok tt;
  query_info = ok tt;
}

abbrev point_header : Bytes
point_header = codes "point"

abbrev header_frame : Bytes
header_frame = 0 ∷ 0 ∷ 0 ∷ 5 ∷ point_header

abbrev jpeg_frame : Bytes
jpeg_frame = 0 ∷ 0 ∷ 0 ∷ 4 ∷ a_jpeg

abbrev one_request : Bytes
one_request = header_frame ++ (jpeg_frame ++ [])

serve_ends_example : (serve stub_codec 8 0 calm_tick (0 ∷ 0 ∷ 0 ∷ 5 ∷ [])).1 ≢ out_of_fuel
serve_ends_example = serve_ends stub_codec 8 0 calm_tick (0 ∷ 0 ∷ 0 ∷ 5 ∷ []) (omega arith)
