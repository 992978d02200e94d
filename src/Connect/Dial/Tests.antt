-- ===== src/Connect/Dial/Tests.antt =====
-- internal/proxy/connect.go: runs of dialConnect and readConnectStatus, and the theorems at
-- concrete inputs.
use go_proxy_mux.Prelude.{ℕ, zero, suc, ◌<◌, ◌≡◌, refl, true, false, [], ◌∷◌, List, none, some}
use go_proxy_mux.Prelude.Int.{pos, ◌-ℤ◌}
use go_proxy_mux.Prelude.Bytes.{Bytes, codes, str_eq}
use go_proxy_mux.Net.{contains, split_host_port, atoi}
use go_proxy_mux.Config.{UpstreamAuth, default_config, no_upstream}
use go_proxy_mux.Balancer.{Balancer, Selection, new}
use go_proxy_mux.Headers.{split_on}
use go_proxy_mux.Connect
use go_proxy_mux.Connect.{Request, Tried, attempts, check_request, target_of, established}
use go_proxy_mux.Connect.Status
use go_proxy_mux.Connect.Status.{Part, max_header_bytes, read_connect_status}
use go_proxy_mux.Connect.Status.Lines.{lines_of, response_end, read_connect_status-response_end}
use go_proxy_mux.Connect.Dial.{Surroundings, still_open, connect_request, dial_connect}
use go_proxy_mux.Connect.Dial.Text.{request_lines, connect_request-check_request}
use go_proxy_mux.Connect.Dial.Handled.{composed, Leaves, attempts-Leaves}
use go_proxy_mux.Connect.Dial.Owner.{Owned, dial_connect-Owned}

abbrev words : Bytes → List Bytes
words line = split_on b' ' line

-- A line of the header in two parts, and what the tunnel begins with.
abbrev answer : List Part
answer =
    (codes "HTTP/1.1 200 OK", false)
    ∷ (codes "Server:", true)
    ∷ (codes " up", false)
    ∷ ([], false)
    ∷ (codes "hello", false)
    ∷ []

abbrev behind : List Part
behind = (codes "hello", false) ∷ []

abbrev out : Surroundings
out = record {
  dialed = true;
  deadline_fails = false;
  tls_fails = false;
  write_fails = false;
  read_deadline_fails = false;
  answers = answer;
  clear_fails = false;
  context_is_done = false;
  fields = words;
}

abbrev handler : Connect.Surroundings
handler = record {
  can_hijack = true;
  setup = λ n i. established;
  failed_at = λ n. pos 100;
  chosen_at = λ n. pos 101;
  draw = λ n. 0;
}

abbrev request : Request
request = record {
  host = codes "[::1]:443";
  url_host = [];
  proto_major = pos 1;
  remote_addr = codes "10.0.0.1:5000";
}

abbrev login : UpstreamAuth
login = record { enabled = true; username = codes "u"; password = codes "p" }

abbrev encoded : Bytes → Bytes
encoded t = codes "dTpw"

encoded_lem : (t : Bytes) → contains 10 (encoded t) ≡ false
unfolding contains
encoded_lem t = refl

let_through : check_request handler request ≡ none
unfolding check_request Connect.target_of split_host_port atoi contains str_eq
let_through = refl

read_connect_status_run : read_connect_status words answer ≡ some (200, behind)
unfolding read_connect_status Status.read_limited_line Status.read_headers Status.status_of split_on
    contains str_eq atoi ◌-ℤ◌
read_connect_status_run = refl

dial_connect_run :
    (dial_connect out encoded (codes "http") login (codes "a:1")).connection ≡ still_open
unfolding dial_connect read_connect_status Status.read_limited_line Status.read_headers
    Status.status_of split_on contains str_eq atoi ◌-ℤ◌
dial_connect_run = refl

read_connect_status-response_end_example :
    read_connect_status words answer ≡ response_end words max_header_bytes (lines_of [] answer)
read_connect_status-response_end_example = read_connect_status-response_end words answer

connect_request-check_request_example :
    (split_on 10 (connect_request encoded login (target_of request))
      ≡ request_lines encoded login (target_of request))
    × (contains 13 (target_of request) ≡ false)
connect_request-check_request_example =
    connect_request-check_request handler request encoded login encoded_lem let_through

dial_connect-Owned_example :
    let d = dial_connect out encoded (codes "http") login (codes "a:1") in
    Owned out (connect_request encoded login (codes "a:1")) d d.result
dial_connect-Owned_example = dial_connect-Owned out encoded (codes "http") login (codes "a:1")

abbrev two : Balancer
two = new default_config.proxy (no_upstream ∷ no_upstream ∷ [])

abbrev first : Selection
first = record { index = 0; upstream = no_upstream }

-- The write of the first attempt fails.
abbrev outs : ℕ → ℕ → Surroundings
outs zero i = record out { write_fails = true }
outs (suc n) i = out

below : (n : ℕ) → 0 < n → handler.draw n < n
below n h = h

abbrev tried : Tried
tried =
    attempts
      (composed handler (λ n. false) outs encoded (λ i. codes "http") (λ i. login) (codes "a:1")) 2
      0 two first

attempts-Leaves_example :
    Leaves handler (λ n. false) outs encoded (λ i. codes "http") (λ i. login) (codes "a:1") tried
attempts-Leaves_example =
    attempts-Leaves handler (λ n. false) outs encoded (λ i. codes "http") (λ i. login) (codes "a:1")
      two first below
