-- ===== src/Serve/Transports.antt =====
-- internal/proxy/server.go: the transport that NewProxyServer makes for each upstream.
use go_proxy_mux.Prelude.{Bool, ℕ, List, [], ◌∷◌, Option, none, some, suc, if◌then◌else◌}
use go_proxy_mux.Prelude.Int.{ℤ}
use go_proxy_mux.Prelude.Bytes.{Bytes, codes, str_eq}
use go_proxy_mux.Config.{UpstreamConfig, ProxyConfig}
use go_proxy_mux.Config.Upstream.{
  ProxyUrl, UpstreamFault, Checked, accepted, refused, Files, upstream_url, is_socks, ca_unreadable,
  ca_empty,
}
use go_proxy_mux.Config.Usable.{credentials_of}
use go_proxy_mux.Socks.Version5.{Credentials}
use go_proxy_mux.Socks.Dial.{bad_network}

-- How a transport reaches its upstream: an HTTP proxy's URL and the network, or the SOCKS dialer's
-- scheme, address and credentials.
pub data Route : Type 0 where
  by_proxy : ProxyUrl → Bytes → Route
  by_socks : Bytes → Bytes → Credentials → Route

pub record Transport : Type 0 where
  pub route : Route
  pub dial_timeout : ℤ
  pub dial_keep_alive : ℤ
  pub root_certificates : Option Bytes
  pub tls_handshake_timeout : ℤ
  pub response_header_timeout : ℤ
  pub max_idle_conns : ℤ
  pub max_idle_conns_per_host : ℤ
  pub max_conns_per_host : ℤ
  pub idle_conn_timeout : ℤ
  pub expect_continue_timeout : ℤ

-- A failure of upstream `i`.
pub data BuildFault : Type 0 where
  bad_url bad_ca_file : ℕ → UpstreamFault → BuildFault
  no_system_roots : ℕ → BuildFault

pub data Built (A : Type 0) : Type 0 where
  built : A → Built A
  fails : BuildFault → Built A

infixl 5 ◌>>=◌
abbrev pub ◌>>=◌ : {A B : Type 0} → Built A → (A → Built B) → Built B
built a >>= f = f a
fails e >>= f = fails e

abbrev pub url_of : ℕ → Checked ProxyUrl → Built ProxyUrl
url_of i (accepted p) = built p
url_of i (refused f) = fails (bad_url i f)

abbrev pub read_roots : Files → ℕ → Option Bytes → Built (Option Bytes)
read_roots files i none = fails (bad_ca_file i ca_unreadable)
read_roots files i (some text) =
    if files.has_certificates text then built (some text) else fails (bad_ca_file i ca_empty)

-- `roots_fail` tells whether x509.SystemCertPool fails.
unfoldable pub roots_of : Files → Bool → ℕ → Bytes → Built (Option Bytes)
roots_of files roots_fail i ca_file =
    if str_eq ca_file []
    then built none
    else if roots_fail
    then fails (no_system_roots i)
    else read_roots files i (files.read_file ca_file)

unfoldable pub network_of : ProxyConfig → Bytes
network_of cfg = if str_eq cfg.network (codes "auto") then codes "tcp" else cfg.network

unfoldable pub route_of : ProxyConfig → UpstreamConfig → ProxyUrl → Route
route_of cfg up p =
    if is_socks p.scheme
    then by_socks p.scheme p.host (credentials_of up.auth)
    else by_proxy p (network_of cfg)

-- The network that is dialled when net/http asks for `given`, or an error.
unfoldable pub dialed_network : Route → Bytes → Option Bytes
dialed_network (by_proxy p network) given = some network
dialed_network (by_socks scheme address c) given = if bad_network given then none else some given

unfoldable pub transport_of : ProxyConfig → UpstreamConfig → ProxyUrl → Option Bytes → Transport
transport_of cfg up p roots = record {
  route = route_of cfg up p;
  dial_timeout = cfg.dial_timeout;
  dial_keep_alive = cfg.dial_keep_alive;
  root_certificates = roots;
  tls_handshake_timeout = cfg.tls_handshake_timeout;
  response_header_timeout = cfg.response_header_timeout;
  max_idle_conns = cfg.max_idle_conns;
  max_idle_conns_per_host = cfg.max_idle_conns_per_host;
  max_conns_per_host = cfg.max_conns_per_host;
  idle_conn_timeout = cfg.idle_conn_timeout;
  expect_continue_timeout = cfg.expect_continue_timeout;
}

-- One round of the loop over the upstreams.
unfoldable pub make_transport : ProxyConfig → Files → Bool → ℕ → UpstreamConfig → Built Transport
make_transport cfg files roots_fail i up = do
  p ← url_of i (upstream_url files.parse_url up)
  roots ← roots_of files roots_fail i up.tls_ca_file
  built (transport_of cfg up p roots)

unfoldable pub make_transports :
    ProxyConfig → Files → Bool → ℕ → List UpstreamConfig → Built (List Transport)
make_transports cfg files roots_fail i [] = built []
make_transports cfg files roots_fail i (up ∷ ups) =
    let rest = make_transports cfg files roots_fail (suc i) ups in
    make_transport cfg files roots_fail i up >>= λ t. rest >>= λ ts. built (t ∷ ts)
