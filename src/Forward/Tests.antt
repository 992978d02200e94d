-- ===== src/Forward/Tests.antt =====
-- internal/proxy/http.go: runs of forwardRequest, and the theorems at concrete inputs.
use go_proxy_mux.Prelude.{
  ℕ, zero, suc, ◌-◌, ◌<◌, ◌≡◌, refl, true, false, [], ◌∷◌, none, some, arith,
}
use go_proxy_mux.Prelude.Int.{pos, ◌+ℤ◌}
use go_proxy_mux.Prelude.Bytes.{codes, str_eq}
use go_proxy_mux.Prelude.Dict
use go_proxy_mux.Config.{default_config, no_upstream}
use go_proxy_mux.Balancer
use go_proxy_mux.Balancer.{Balancer, Selection, new}
use go_proxy_mux.Headers
use go_proxy_mux.Forward
use go_proxy_mux.Forward.{
  Request, Did, failed, Surroundings, passed, bad_destination, forward_request, is_bad_target,
  target_of,
}
use go_proxy_mux.Forward.Attempts.{Forwards, forward_request-Forwards}
use go_proxy_mux.Forward.Bodies.{forward_request_closes}

-- Upstream 0 fails, any other answers.
abbrev second_serves : ℕ → ℕ → Did
second_serves n zero = record { response = none; error = some failed }
second_serves n (suc i) = record {
  response = some (record { status = 200; header = (codes "X", codes "1" ∷ []) ∷ [] });
  error = none;
}

abbrev out : Surroundings
out = record {
  canonical = λ name. name;
  trim = λ text. text;
  hostname = λ host. host;
  did = second_serves;
  timer_first = λ n i. false;
  client_gone = λ n. false;
  copied = λ n i. true;
  failed_at = λ n. pos 100;
  chosen_at = λ n. pos 101;
  draw = λ n. n - 1;
}

below : (n : ℕ) → 0 < n → out.draw n < n
below n h = omega arith

abbrev two : Balancer
two = new default_config.proxy (no_upstream ∷ no_upstream ∷ [])

abbrev first : Selection
first = record { index = 0; upstream = no_upstream }

abbrev get : Request
get = record {
  scheme = codes "http";
  url_host = codes "h";
  url_rest = codes "/";
  host = codes "h";
  request_uri = codes "http://h/";
  header = (codes "Upgrade", codes "h2c" ∷ []) ∷ [];
  method = codes "GET";
  content_length = pos 0;
  body = none;
}

get_run : (forward_request out two get first).reply ≡ passed 200 ((codes "X", codes "1" ∷ []) ∷ [])
unfolding forward_request is_bad_target target_of Forward.attempts Forward.do_http_request
    Forward.can_retry Forward.fail_over Forward.write_upstream_error Forward.marked Forward.pass_on
    Forward.outgoing Balancer.next Balancer.usable Balancer.available Balancer.rotate
    Balancer.mark_failure Balancer.mark_success new ◌+ℤ◌ str_eq Headers.remove_hop_headers
    Headers.delete_named Headers.delete_values Headers.delete_tokens Headers.delete_all
    Headers.split_on Headers.values Dict.lookup Dict.delete
get_run = refl

-- Both upstreams are sent the request without its Upgrade field and RequestURI.
sent_run :
    (forward_request out two get first).sent
    ≡ (0, record get { request_uri = []; header = [] })
      ∷ (1, record get { request_uri = []; header = [] })
      ∷ []
unfolding forward_request is_bad_target target_of Forward.attempts Forward.do_http_request
    Forward.can_retry Forward.fail_over Forward.write_upstream_error Forward.marked Forward.pass_on
    Forward.outgoing Balancer.next Balancer.usable Balancer.available Balancer.rotate
    Balancer.mark_failure Balancer.mark_success new ◌+ℤ◌ str_eq Headers.remove_hop_headers
    Headers.delete_named Headers.delete_values Headers.delete_tokens Headers.delete_all
    Headers.split_on Headers.values Dict.lookup Dict.delete
sent_run = refl

-- A POST is not sent to the second upstream.
post_run :
    (forward_request out two (record get { method = codes "POST" }) first).reply
    ≡ Forward.upstream_failed
unfolding forward_request is_bad_target target_of Forward.attempts Forward.do_http_request
    Forward.can_retry Forward.fail_over Forward.write_upstream_error str_eq
post_run = refl

forward_request-Forwards_example : Forwards out get two first (forward_request out two get first)
forward_request-Forwards_example = forward_request-Forwards out get two first below

forward_request_closes_example : let t = forward_request out two get first in t.closed ≡ t.opened
forward_request_closes_example = forward_request_closes out two get first
