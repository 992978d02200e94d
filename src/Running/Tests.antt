-- ===== src/Running/Tests.antt =====
-- internal/proxy/run.go: a run of Run, and the theorem at it.
use go_proxy_mux.Prelude.{◌≡◌, refl, true, false, none}
use go_proxy_mux.Prelude.Int.{pos}
use go_proxy_mux.Config.{default_config}
use go_proxy_mux.Config.Samples
use go_proxy_mux.Config.Samples.{public_config}
use go_proxy_mux.Running.{Surroundings, effective_http2_max_concurrent_streams, run, after_cancel}
use go_proxy_mux.Running.Order.{Runs, run-Runs}

abbrev out : Surroundings
out = record {
  listens = true;
  serve_first = false;
  serve_closed = true;
  shutdown_fails = false;
  tunnels_end = true;
}

streams_run : effective_http2_max_concurrent_streams default_config ≡ pos 128
unfolding effective_http2_max_concurrent_streams
streams_run = refl

after_cancel_run : (after_cancel out).error ≡ none
after_cancel_run = refl

run-Runs_example : Runs out Samples.out public_config (run out Samples.out false public_config)
run-Runs_example = run-Runs out Samples.out false public_config
