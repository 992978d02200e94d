-- ===== src/Serve/Suited.antt =====
-- internal/proxy/server.go: what the transport of an upstream has to be.
use go_proxy_mux.Prelude.{
  ◌≢◌, ◌⊎◌, ◌||◌, true, if◌then◌else◌, ◌≡◌, refl, inl, inr, Bool, false, Bool-cases, List, [], ◌∷◌,
  Option, none, some, arith,
}
use go_proxy_mux.Prelude.Bytes.{Bytes, codes, str_eq, str_eq_iff}
use go_proxy_mux.Config.{UpstreamConfig, ProxyConfig}
use go_proxy_mux.Config.Upstream.{ProxyUrl, accepted, Files, upstream_url, is_socks}
use go_proxy_mux.Config.Usable.{credentials_of}
use go_proxy_mux.Socks.Version5.{Credentials}
use go_proxy_mux.Serve.Transports.{
  Route, by_proxy, by_socks, network_of, route_of, Transport, transport_of,
}

-- The network that is dialled to an HTTP proxy.
abbrev pub Network : ProxyConfig → Bytes → Type 0
Network cfg network =
    ((cfg.network ≡ codes "auto") × (network ≡ codes "tcp"))
    ⊎ ((cfg.network ≢ codes "auto") × (network ≡ cfg.network))

-- How an upstream is reached: the two SOCKS schemes by the SOCKS client, with the upstream's own
-- credentials, and any other by its URL as an HTTP proxy.
pub data Reaches (cfg : ProxyConfig) (up : UpstreamConfig) (url : ProxyUrl) : Route → Type 0 where
  over_socks :
      (c : Credentials)
      → (url.scheme ≡ codes "socks4") ⊎ (url.scheme ≡ codes "socks5")
      → c.enabled ≡ up.auth.enabled
      → c.username ≡ up.auth.username
      → c.password ≡ up.auth.password
      → Reaches cfg up url (by_socks url.scheme url.host c)
  over_http :
      (network : Bytes)
      → url.scheme ≢ codes "socks4"
      → url.scheme ≢ codes "socks5"
      → Network cfg network
      → Reaches cfg up url (by_proxy url network)

-- The root certificates beside the system's: none, or those of the file, which has some.
pub data Trusts (files : Files) (ca_file : Bytes) : Option Bytes → Type 0 where
  system_only : ca_file ≡ [] → Trusts files ca_file none
  with_file :
      (text : Bytes)
      → ca_file ≢ []
      → files.read_file ca_file ≡ some text
      → files.has_certificates text ≡ true
      → Trusts files ca_file (some text)

-- The transport of an upstream.
pub record Suited (cfg : ProxyConfig) (files : Files) (up : UpstreamConfig) (t : Transport)
    : Type 0 where
  pub url : ProxyUrl
  pub parsed : upstream_url files.parse_url up ≡ accepted url
  pub reached : Reaches cfg up url t.route
  pub trusted : Trusts files up.tls_ca_file t.root_certificates
  pub dial_timeout : t.dial_timeout ≡ cfg.dial_timeout
  pub dial_keep_alive : t.dial_keep_alive ≡ cfg.dial_keep_alive
  pub tls_handshake_timeout : t.tls_handshake_timeout ≡ cfg.tls_handshake_timeout
  pub response_header_timeout : t.response_header_timeout ≡ cfg.response_header_timeout
  pub max_idle_conns : t.max_idle_conns ≡ cfg.max_idle_conns
  pub max_idle_conns_per_host : t.max_idle_conns_per_host ≡ cfg.max_idle_conns_per_host
  pub max_conns_per_host : t.max_conns_per_host ≡ cfg.max_conns_per_host
  pub idle_conn_timeout : t.idle_conn_timeout ≡ cfg.idle_conn_timeout
  pub expect_continue_timeout : t.expect_continue_timeout ≡ cfg.expect_continue_timeout

pub other_text : (a b : Bytes) → str_eq a b ≡ false → a ≢ b
other_text a b h e = let same = (str_eq_iff a b).1 e in absurd (ground arith)

network_of-Network : (cfg : ProxyConfig) → Network cfg (network_of cfg)
unfolding network_of
network_of-Network cfg = elim (Bool-cases (str_eq cfg.network (codes "auto"))) [
  | inl auto ↦ inl ((str_eq_iff cfg.network (codes "auto")).0 auto, if_true auto)
  | inr own ↦ inr (other_text cfg.network (codes "auto") own, if_false own)
]
  where
    if_true : {t : Bool} → t ≡ true → (if t then codes "tcp" else cfg.network) ≡ codes "tcp"
    if_true e = rw e refl

    if_false : {t : Bool} → t ≡ false → (if t then codes "tcp" else cfg.network) ≡ cfg.network
    if_false e = rw e refl

chosen_route :
    (cfg : ProxyConfig) (up : UpstreamConfig) (url : ProxyUrl) (four five : Bool)
    → str_eq url.scheme (codes "socks4") ≡ four
    → str_eq url.scheme (codes "socks5") ≡ five
    → Reaches cfg up url (
        if four || five
        then by_socks url.scheme url.host (credentials_of up.auth)
        else by_proxy url (network_of cfg))
unfolding credentials_of
chosen_route cfg up url true five h4 h5 =
    over_socks (credentials_of up.auth) (inl ((str_eq_iff url.scheme (codes "socks4")).0 h4)) refl
      refl refl
chosen_route cfg up url false true h4 h5 =
    over_socks (credentials_of up.auth) (inr ((str_eq_iff url.scheme (codes "socks5")).0 h5)) refl
      refl refl
chosen_route cfg up url false false h4 h5 =
    over_http (network_of cfg) (other_text url.scheme (codes "socks4") h4)
      (other_text url.scheme (codes "socks5") h5) (network_of-Network cfg)

route_of-Reaches :
    (cfg : ProxyConfig) (up : UpstreamConfig) (url : ProxyUrl)
    → Reaches cfg up url (route_of cfg up url)
unfolding route_of is_socks
route_of-Reaches cfg up url =
    chosen_route cfg up url (str_eq url.scheme (codes "socks4"))
      (str_eq url.scheme (codes "socks5")) refl refl

pub transport_of-Suited :
    (cfg : ProxyConfig) (files : Files) (up : UpstreamConfig) (url : ProxyUrl)
    (roots : Option Bytes)
    → upstream_url files.parse_url up ≡ accepted url
    → Trusts files up.tls_ca_file roots
    → Suited cfg files up (transport_of cfg up url roots)
unfolding transport_of
transport_of-Suited cfg files up url roots parsed trusted = record {
  url = url;
  parsed = parsed;
  reached = route_of-Reaches cfg up url;
  trusted = trusted;
  dial_timeout = refl;
  dial_keep_alive = refl;
  tls_handshake_timeout = refl;
  response_header_timeout = refl;
  max_idle_conns = refl;
  max_idle_conns_per_host = refl;
  max_conns_per_host = refl;
  idle_conn_timeout = refl;
  expect_continue_timeout = refl;
}

-- Each upstream has, in its place, a transport that suits it.
pub data Fitted (cfg : ProxyConfig) (files : Files)
    : List UpstreamConfig → List Transport → Type 0 where
  none_left : Fitted cfg files [] []
  one_more :
      {up : UpstreamConfig} {ups : List UpstreamConfig} {t : Transport} {ts : List Transport}
      → Suited cfg files up t
      → Fitted cfg files ups ts
      → Fitted cfg files (up ∷ ups) (t ∷ ts)
