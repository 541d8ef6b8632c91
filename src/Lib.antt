-- ===== src/Lib.antt =====
-- locate_anything_setup: the Python worker that answers requests to locate objects in an image.
--
-- A client sends frames to an edge server written in Rust, which classifies the prompt and passes
-- each request on over a Unix socket. The worker reads two length-prefixed frames, a JSON header and
-- a payload, checks them, decodes the JPEG, renders the prompt, runs the model, parses the answer's
-- markup into boxes and points, and maps them to one of four variants of a reply.
--
-- The files and the code they model:
--   Text, Regex: the operations of `str` and of `re` that worker/parsing.py and worker/prompts.py use,
--     on code points, with the compiled patterns as matchers.
--   Float: the operations on a float, as an interface; its laws are named hypotheses.
--   Parsing: worker/parsing.py (`parse_boxes`, `parse_points`, `count_malformed_geometry`, ...).
--   Prompts, Prompts/Requests: worker/prompts.py (the templates, `classify_prompt`, `point_phrase`, the
--     typed requests), Prompts/Presets (the tables).
--   Pixel: worker/pixel_token_math.py (`plan_resize`, `summarize`).
--   Outcome: Python's exceptions as values.
--   Inference/Config, Image, Variant, Engine: worker/inference.py (`GenConfig`, and
--     `LocateAnythingInference.run` in three parts).
--   Inference/Loading/Vision, Language, Encoder, Engine: worker/inference.py
--     (`_force_vit_flash_attn_2`, `_patch_sdpa_to_mem_efficient`,
--     `_patch_vit_sdpa_to_mem_efficient`, `LocateAnythingInference.__init__`), Encoder/Mask: the mask
--     of `patched_sdpa_attention`.
--   Framing: worker/la_worker.py (`read_frame`, `write_frame`).
--   Worker/Reply, Infer, Serve: worker/la_worker.py (`_frame_error`, `_infer`, `handle_connection`).
--   Tiling: worker/tiling.py (`grid`, `iou`, `nms`).
--   Worker/Lock: the connections that share the engine of worker/la_worker.py by its asyncio lock.
--   Worker/App, Capabilities: worker/la_worker.py (`main_async`, `capabilities`, `info`).
--   Startup, Startup/Files, System, Templates, Boot: worker/validate_startup.py (`validate_env`,
--     `validate_model_dir`, `validate_gpu`, `validate_preprocessor_config`,
--     `validate_prompt_template_drift`, `run_all`).
--   Clients/Request, Wire, Smoke: scripts/lib/smoke_ws_client.py, and the JSON of a reply.
--   Clients/Concurrency, Concurrency/Report: scripts/lib/concurrency_smoke_client.py.
--   Clients/Reference, Sender: examples/reference_client.py.
--   Calibration: worker/calibration.py (`calibrate`).
--   Tests: the theorems at concrete inputs.
-- The children of a module hold its proofs and are named for what they prove.
--
-- State is passed on explicitly: a stream is the list of the bytes that are still to come, and a loop
-- returns the replies written and how it ended. What a connection does in turn n depends on a Tick,
-- which says whether the writer is closing, whether the run ends in time, and what the run does.
-- Messages are data, by their cause; logging is left out. How connections interleave is a step
-- relation (Worker/Lock): a step is what the event loop does between two waits of `_infer`.
--
-- Fuel: `serve` takes the number of turns, of which one more than the stream has bytes is enough, as
-- is one more than it has whole requests; `blocks` takes the length of the text. All other loops are
-- structural.
--
-- Parameters, because their code is not in the repository: PIL (Inference/Image, a record of calls),
-- the processor, the model and the tokenizer (Inference/Engine), the modules and classes of torch,
-- transformers and the model (Inference/Loading), JSON and UTF-8 (Worker/Serve), float parsing
-- (Inference/Config), the system calls at the start (Worker/App), the file system, SHA-256, torch and
-- the output of the Rust binary (Startup), what arrives at a client and when (Clients), floating
-- point (Float).
--
-- Not modelled: the tensors of the patched attention of worker/inference.py but for its mask, logging
-- and argparse, the connections of the clients, the Rust server and the scripts.
pub mod Prelude
pub mod Text
pub mod Regex
pub mod Float
pub mod Parsing
pub mod Prompts
pub mod Pixel
pub mod Outcome
pub mod Inference
pub mod Framing
pub mod Worker
pub mod Tiling
pub mod Startup
pub mod Calibration
pub mod Clients
pub mod Tests
