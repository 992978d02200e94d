-- ===== src/Serve.antt =====
-- internal/proxy/server.go: NewProxyServer and ServeHTTP, over the components. The HTTP clients'
-- own behaviour is in the surroundings; the SOCKS dialer that a transport is given is Socks.Dial.
pub mod Transports
pub mod Suited
pub mod Build
pub mod Sound
pub mod KeptConnect
pub mod KeptForward
pub mod Admission
pub mod Fine
pub mod Created
pub mod Requests
mod Tests
use go_proxy_mux.Prelude.{
  ℕ, ◌+◌, ◌/◌, ◌%◌, Bool, true, false, List, [], ◌∷◌, Option, none, some, map, length, ltb, ◌&&◌,
  if◌then◌else◌, ◌==◌,
}
use go_proxy_mux.Prelude.Int.{ℤ, pos, negsuc, pos_part, ltb_ℤ}
use go_proxy_mux.Prelude.Bytes.{Bytes, codes, str_eq}
use go_proxy_mux.Config.{Config}
use go_proxy_mux.Config.Validate.{Fault, Outside, validate}
use go_proxy_mux.Balancer.{Balancer, Selection, new, next}
use go_proxy_mux.Limits.{Limiter, new_concurrent_limiter}
use go_proxy_mux.Limits.Accept.{address_host}
use go_proxy_mux.AuthLimit.{AuthFailureLimiter, new_auth_failure_limiter, attempt}
use go_proxy_mux.Auth.{is_authorized}
use go_proxy_mux.Headers.{Header}
use go_proxy_mux.Connect
use go_proxy_mux.Connect.{handle_connect}
use go_proxy_mux.Forward
use go_proxy_mux.Forward.{forward_request}
use go_proxy_mux.Serve.Transports.{Transport, BuildFault, Built, built, fails, make_transports}

pub record ProxyServer : Type 0 where
  pub config : Config
  pub balancer : Balancer
  pub transports : List Transport
  pub tunnel_limiter : Limiter
  pub auth_failures : Option AuthFailureLimiter

-- What NewProxyServer comes to.
pub data NewResult : Type 0 where
  created : ProxyServer → NewResult
  invalid : Fault → NewResult
  unbuilt : BuildFault → NewResult

abbrev pub server_of : Config → List Transport → ProxyServer
server_of cfg transports = record {
  config = cfg;
  balancer = new cfg.proxy cfg.upstreams;
  transports = transports;
  tunnel_limiter = new_concurrent_limiter cfg.proxy.max_tunnels cfg.proxy.max_tunnels_per_ip;
  auth_failures = if cfg.auth.enabled then some (new_auth_failure_limiter cfg.auth) else none;
}

abbrev pub with_transports : Config → Built (List Transport) → NewResult
with_transports cfg (fails e) = unbuilt e
with_transports cfg (built transports) = created (server_of cfg transports)

abbrev pub with_checked : Outside → Bool → Config → Option Fault → NewResult
with_checked out roots_fail cfg (some fault) = invalid fault
with_checked out roots_fail cfg none =
    with_transports cfg (make_transports cfg.proxy out.files roots_fail 0 cfg.upstreams)

-- The files are read here again; nothing changes them in between.
unfoldable pub new_proxy_server : Outside → Bool → Config → NewResult
new_proxy_server out roots_fail cfg = with_checked out roots_fail cfg (validate out (some cfg))

-- What the handlers read of an http.Request; `authorization` is its Proxy-Authorization.
pub record Request : Type 0 where
  pub method : Bytes
  pub authorization : Bytes
  pub remote_addr : Bytes
  pub host : Bytes
  pub url_scheme : Bytes
  pub url_host : Bytes
  pub url_rest : Bytes
  pub request_uri : Bytes
  pub proto_major : ℤ
  pub header : Header
  pub content_length : ℤ
  pub body : Option Bytes

abbrev pub to_connect : Request → Connect.Request
to_connect r = record {
  host = r.host;
  url_host = r.url_host;
  proto_major = r.proto_major;
  remote_addr = r.remote_addr;
}

abbrev pub to_forward : Request → Forward.Request
to_forward r = record {
  scheme = r.url_scheme;
  url_host = r.url_host;
  url_rest = r.url_rest;
  host = r.host;
  request_uri = r.request_uri;
  header = r.header;
  method = r.method;
  content_length = r.content_length;
  body = r.body;
}

-- base64 and sha256, the clock in `attempt` and in the first Next, and what the handlers meet.
pub record Surroundings : Type 0 where
  pub decode : Bytes → Option Bytes
  pub sum : Bytes → Bytes
  pub attempted_at : ℤ
  pub chosen_at : ℤ
  pub draw : ℕ → ℕ
  pub connect : Connect.Surroundings
  pub forward : Forward.Surroundings

-- `panicked` is a panic other than that with http.ErrAbortHandler, which is Forward.aborted.
pub data Answer : Type 0 where
  retry_after : ℕ → Answer
  login_required no_upstreams panicked : Answer
  connected : Connect.Reply → Answer
  forwarded : Forward.Reply → Answer

-- The server in the end, the answer, and the upstreams that were asked, in order.
pub record Served : Type 0 where
  pub server : ProxyServer
  pub answer : Answer
  pub asked : List ℕ

-- Nanoseconds to seconds, rounded up.
unfoldable pub whole_seconds : ℤ → ℕ
whole_seconds blocked_for =
    let n = pos_part blocked_for in n / 1_000_000_000 + (if n % 1_000_000_000 == 0 then 0 else 1)

abbrev pub is_valid : Surroundings → ProxyServer → Request → Bool
is_valid out s r = is_authorized out.decode out.sum s.config.auth r.authorization

-- Behind `attempt`: the refusal, if there is one. A panic is `none`.
unfoldable pub judged :
    ProxyServer → Bool → Option (AuthFailureLimiter × ℤ) → ProxyServer × Option Answer
judged s valid none = (s, some panicked)
judged s valid (some (l, blocked_for)) =
    let s' = record s { auth_failures = some l } in
    if ltb_ℤ (pos 0) blocked_for
    then (s', some (retry_after (whole_seconds blocked_for)))
    else if valid
    then (s', none)
    else (s', some login_required)

-- A nil limiter panics.
abbrev pub check_login :
    Surroundings → ProxyServer → Request → Option AuthFailureLimiter → ProxyServer × Option Answer
check_login out s r none = (s, some panicked)
check_login out s r (some l) =
    judged s (is_valid out s r)
      (attempt l (address_host r.remote_addr) (is_valid out s r) out.attempted_at)

unfoldable pub admit : Surroundings → ProxyServer → Request → ProxyServer × Option Answer
admit out s r = if s.config.auth.enabled then check_login out s r s.auth_failures else (s, none)

abbrev pub sent_to : List (ℕ × Forward.Request) → List ℕ
sent_to = map (λ sent. sent.0)

-- Whether every index is one of `n` places.
unfoldable pub all_below : ℕ → List ℕ → Bool
all_below n [] = true
all_below n (i ∷ is) = ltb i n && all_below n is

-- `ps.config.Upstreams[index]` panics for an index beyond the end. What the handler comes to
-- otherwise stands for the server behind such a panic.
abbrev pub from_connect : ProxyServer → Connect.Handled → Served
from_connect s h = record {
  server = record s { balancer = h.tried.balancer; tunnel_limiter = h.limiter };
  answer =
      if all_below (length s.config.upstreams) h.tried.dialed
      then connected h.tried.reply
      else panicked;
  asked = h.tried.dialed;
}

-- `ps.clients[index]` panics for an index beyond the end.
abbrev pub from_forward : ProxyServer → Forward.Forwarded → Served
from_forward s t = record {
  server = record s { balancer = t.balancer };
  answer = if all_below (length s.transports) (sent_to t.sent) then forwarded t.reply else panicked;
  asked = sent_to t.sent;
}

abbrev pub refused : ProxyServer → Answer → Served
refused s answer = record { server = s; answer = answer; asked = [] }

unfoldable pub dispatch :
    Surroundings → ProxyServer → Request → Balancer × Option Selection → Served
dispatch out s r (b, none) = refused (record s { balancer = b }) no_upstreams
dispatch out s r (b, some selected) =
    if str_eq r.method (codes "CONNECT")
    then from_connect s (handle_connect out.connect s.tunnel_limiter b (to_connect r) selected)
    else from_forward s (forward_request out.forward b (to_forward r) selected)

unfoldable pub go_on : Surroundings → Request → ProxyServer × Option Answer → Served
go_on out r (s, some answer) = refused s answer
go_on out r (s, none) = dispatch out s r (next s.balancer (negsuc 0) out.chosen_at out.draw)

unfoldable pub serve_http : Surroundings → ProxyServer → Request → Served
serve_http out s r = go_on out r (admit out s r)
