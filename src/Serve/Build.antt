-- ===== src/Serve/Build.antt =====
-- internal/proxy/server.go: NewProxyServer on a configuration that Validate accepts.
use go_proxy_mux.Prelude.{
  ℕ, suc, ◌≢◌, true, ◌≡◌, refl, inl, inr, Bool, false, Bool-cases, not, List, [], ◌∷◌, Option, none,
  some, arith,
}
use go_proxy_mux.Prelude.Bytes.{Bytes, codes, str_eq, str_eq_iff}
use go_proxy_mux.Prelude.Checks.{or_else-eq-none, first_fault-eq-none}
use go_proxy_mux.Config.{UpstreamConfig, ProxyConfig, Config}
use go_proxy_mux.Config.Upstream.{
  ProxyUrl, UpstreamFault, Checked, accepted, refused, Files, upstream_url, check_ca, check_login,
  check_parsed, check_upstream, is_unreadable, has_none, ca_without_https, ca_unreadable, ca_empty,
}
use go_proxy_mux.Config.Validate.{Outside, at_index, check_upstreams, check_any, validate}
use go_proxy_mux.Config.Usable.{at_index-eq-none}
use go_proxy_mux.Balancer.{new}
use go_proxy_mux.Config.Accepted.{validate-Passed}
use go_proxy_mux.Serve.Transports.{
  Transport, built, read_roots, roots_of, transport_of, make_transport, make_transports,
}
use go_proxy_mux.Serve.{ProxyServer, created, server_of, new_proxy_server}
use go_proxy_mux.Serve.Suited.{
  Suited, Trusts, system_only, with_file, Fitted, none_left, one_more, other_text,
  transport_of-Suited,
}

has_all : (b : Bool) → not b ≡ false → b ≡ true
has_all b h = ground arith

read_roots-built :
    (files : Files) (i : ℕ) (ca_file : Bytes) (text : Option Bytes)
    → ca_file ≢ []
    → files.read_file ca_file ≡ text
    → has_none files.has_certificates text ≡ false
    → (roots : Option Bytes) × (read_roots files i text ≡ built roots) × Trusts files ca_file roots
read_roots-built files i ca_file none there q h = absurd (ground arith)
read_roots-built files i ca_file (some text) there q h =
    (some text, ground arith, with_file text there q (ground arith))

roots_of-built :
    (files : Files) (i : ℕ) (scheme ca_file : Bytes)
    → check_ca files scheme ca_file ≡ none
    → (roots : Option Bytes) × (roots_of files false i ca_file ≡ built roots)
      × Trusts files ca_file roots
unfolding check_ca roots_of
roots_of-built files i scheme ca_file e = elim (Bool-cases (str_eq ca_file [])) [
  | inl no_file ↦ (none, rw no_file, system_only ((str_eq_iff ca_file []).0 no_file))
  | inr file ↦
      let checks : List (Bool × UpstreamFault) =
        (not (str_eq scheme (codes "https")), ca_without_https)
        ∷ (is_unreadable (files.read_file ca_file), ca_unreadable)
        ∷ (has_none files.has_certificates (files.read_file ca_file), ca_empty)
        ∷ [] in
      let (_, (_, (holds, _))) = first_fault-eq-none checks (rw file at e) in
      let (roots, found, trusted) =
        read_roots-built files i ca_file (files.read_file ca_file) (other_text ca_file [] file) refl
          holds in
      (roots, rw file found, trusted)
]

-- The transport of an upstream that the checks pass.
record Made (cfg : ProxyConfig) (files : Files) (i : ℕ) (up : UpstreamConfig) : Type 0 where
  transport : Transport
  made : make_transport cfg files false i up ≡ built transport
  suited : Suited cfg files up transport

parsed-Made :
    (cfg : ProxyConfig) (files : Files) (i : ℕ) (up : UpstreamConfig) (u : Checked ProxyUrl)
    → upstream_url files.parse_url up ≡ u
    → check_parsed files up u ≡ none
    → Made cfg files i up
unfolding make_transport
parsed-Made cfg files i up (refused f) q e = absurd (ground arith)
parsed-Made cfg files i up (accepted p) q e =
    let (_, ca) = or_else-eq-none (check_login p.scheme up.auth) _ e in
    let (roots, found, trusted) = roots_of-built files i p.scheme up.tls_ca_file ca in
    record {
      transport = transport_of cfg up p roots;
      made = rw (q, found);
      suited = transport_of-Suited cfg files up p roots q trusted;
    }

check_upstream-Made :
    (cfg : ProxyConfig) (files : Files) (i : ℕ) (up : UpstreamConfig)
    → check_upstream files up ≡ none
    → Made cfg files i up
unfolding check_upstream
check_upstream-Made cfg files i up e = parsed-Made cfg files i up _ refl e

fit :
    (cfg : ProxyConfig) (files : Files) (i : ℕ) (ups : List UpstreamConfig)
    → check_upstreams files i ups ≡ none
    → (ts : List Transport) × (make_transports cfg files false i ups ≡ built ts)
      × Fitted cfg files ups ts
unfolding make_transports
fit cfg files i [] e = ([], refl, none_left)
fit cfg files i (up ∷ ups) e =
    let (first, rest) = or_else-eq-none (at_index i (check_upstream files up)) _ e in
    let m = check_upstream-Made cfg files i up (at_index-eq-none i _ first) in
    let (ts, all, fitted) = fit cfg files (suc i) ups rest in
    (m.transport ∷ ts, rw (m.made, all), one_more m.suited fitted)

check_any-fit :
    (cfg : ProxyConfig) (files : Files) (ups : List UpstreamConfig)
    → check_any files ups ≡ none
    → (ts : List Transport) × (make_transports cfg files false 0 ups ≡ built ts)
      × Fitted cfg files ups ts
check_any-fit cfg files [] e = absurd (ground arith)
check_any-fit cfg files (up ∷ ups) e = fit cfg files 0 (up ∷ ups) e

-- Where the system's root certificates load, NewProxyServer succeeds on a configuration that
-- Validate accepts. The balancer chooses among the configuration's upstreams, and each upstream has,
-- at its own index, a transport that reaches it: through the SOCKS client with its credentials where
-- its URL is socks4 or socks5, else as an HTTP proxy on the configured network, which is tcp for
-- auto. Beside the system's root certificates the transport trusts those of the CA file that the
-- upstream names, if it names one, and it has the configured timeouts and bounds.
pub new_proxy_server-Fitted :
    (out : Outside) (cfg : Config)
    → validate out (some cfg) ≡ none
    → (s : ProxyServer) × (new_proxy_server out false cfg ≡ created s)
      × (s.balancer.upstreams ≡ cfg.upstreams)
      × Fitted cfg.proxy out.files cfg.upstreams s.transports
unfolding new_proxy_server new
new_proxy_server-Fitted out cfg e =
    let p = validate-Passed out cfg e in
    let (ts, made, fitted) = check_any-fit cfg.proxy out.files cfg.upstreams p.upstreams in
    (server_of cfg ts, rw (e, made), refl, fitted)
