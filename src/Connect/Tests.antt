-- ===== src/Connect/Tests.antt =====
-- internal/proxy/connect.go: runs of handleConnect, and the theorems at concrete inputs.
use go_proxy_mux.Prelude.{ℕ, zero, suc, ◌-◌, ◌<◌, ◌≡◌, refl, true, [], ◌∷◌, arith}
use go_proxy_mux.Prelude.Int.{pos, ◌+ℤ◌}
use go_proxy_mux.Prelude.Bytes.{Bytes, codes, str_eq}
use go_proxy_mux.Prelude.Dict.{lookup}
use go_proxy_mux.Net.{contains, split_host_port, atoi}
use go_proxy_mux.Config.{default_config, no_upstream}
use go_proxy_mux.Balancer
use go_proxy_mux.Balancer.{Balancer, Selection, new, next, mark_failure, mark_success}
use go_proxy_mux.Limits.{Limiter, new_concurrent_limiter}
use go_proxy_mux.Limits.Counts.{Tally, live, live_of}
use go_proxy_mux.Connect
use go_proxy_mux.Connect.{
  Surroundings, Request, relayed, bad_port, Setup, established, failed, attempts, handle_connect,
}
use go_proxy_mux.Connect.Failover.{FailsOver, attempts-FailsOver}
use go_proxy_mux.Connect.Release.{SameCounts, handle_connect-SameCounts}

-- Upstream 0 fails, any other gives a tunnel.
abbrev second_serves : ℕ → ℕ → Setup
second_serves n zero = failed
second_serves n (suc i) = established

abbrev out : Surroundings
out = record {
  can_hijack = true;
  setup = second_serves;
  failed_at = λ n. pos 100;
  chosen_at = λ n. pos 101;
  draw = λ n. n - 1;
}

below : (n : ℕ) → 0 < n → out.draw n < n
below n h = omega arith

abbrev two : Balancer
two = new default_config.proxy (no_upstream ∷ no_upstream ∷ [])

abbrev first : Selection
first = record { index = 0; upstream = no_upstream }

abbrev request : Bytes → Request
request host = record {
  host = host;
  url_host = [];
  proto_major = pos 1;
  remote_addr = codes "10.0.0.1:5000";
}

abbrev limiter : Limiter
limiter = new_concurrent_limiter (pos 2) (pos 1)

attempts_run : (attempts out 2 0 two first).dialed ≡ 0 ∷ 1 ∷ []
unfolding attempts Connect.react Connect.fail_over next Balancer.usable Balancer.available
    Balancer.rotate mark_failure mark_success new ◌+ℤ◌ str_eq
attempts_run = refl

bad_port_run : (handle_connect out limiter two (request (codes "a:0")) first).tried.reply ≡ bad_port
unfolding handle_connect Connect.check_request Connect.target_of split_host_port atoi contains
    str_eq
bad_port_run = refl

limiter-Tally : Tally limiter []
unfolding new_concurrent_limiter live live_of lookup
limiter-Tally = record { total = refl; per_key = λ k. refl }

attempts-FailsOver_example : FailsOver out two first (attempts out 2 0 two first)
attempts-FailsOver_example = attempts-FailsOver out two first below

handle_connect-SameCounts_example :
    SameCounts limiter (handle_connect out limiter two (request (codes "a:443")) first).limiter
handle_connect-SameCounts_example =
    handle_connect-SameCounts out limiter two (request (codes "a:443")) first [] limiter-Tally
