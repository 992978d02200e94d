-- ===== src/Config/Validate.antt =====
-- internal/config/validate.go: Validate. The certificate's checks, the clock and the reading of
-- addresses are arguments; the text of an error is its kind.

use go_proxy_mux.Prelude.{
  ℕ, suc, Bool, not, ◌&&◌, ◌||◌, List, [], ◌∷◌, Option, none, some, if◌then◌else◌,
}
use go_proxy_mux.Prelude.Int.{ℤ, pos, ltb_ℤ, leb_ℤ}
use go_proxy_mux.Prelude.Bytes.{Bytes, codes, str_eq}
use go_proxy_mux.Prelude.Checks.{first_fault, or_else}
use go_proxy_mux.Net.{contains}
use go_proxy_mux.Config.{TlsConfig, ServerConfig, AuthConfig, ProxyConfig, UpstreamConfig, Config}
use go_proxy_mux.Config.Upstream.{Files, UpstreamFault, check_upstream}

pub data Fault : Type 0 where
  no_config bad_host bad_port bad_max_connections bad_connections_per_ip bad_header_bytes : Fault
  bad_http2_timeouts bad_server_timeouts half_tls unloaded_tls unparsed_tls expired_tls : Fault
  public_http public_proxy bad_attempts bad_failure_times bad_tracked_ips bad_login : Fault
  sample_login bad_algorithm bad_proxy_limits bad_tunnels_per_ip bad_streams bad_network : Fault
  bad_body_timeout bad_transport_timeouts bad_pool_limits no_upstreams : Fault
  bad_upstream : ℕ → UpstreamFault → Fault

-- The certificate's file pair, loaded; the validity of its first certificate, from and to.
pub record Outside : Type 0 where
  pub is_localhost : Bytes → Bool
  pub is_loopback : Bytes → Bool
  pub load_pair : Bytes → Bytes → Option Bytes
  pub parse_certificate : Bytes → Option (ℤ × ℤ)
  pub now : ℤ
  pub files : Files

-- `strings.ContainsAny(host, " /\r\n\t")`
unfoldable pub has_blank : Bytes → Bool
has_blank host =
    contains 32 host
    || (contains 47 host || (contains 13 host || (contains 10 host || contains 9 host)))

-- Below `low` or above `high`.
abbrev pub outside_of : ℤ → ℤ → ℤ → Bool
outside_of low high n = ltb_ℤ n low || ltb_ℤ high n

abbrev pub is_negative : ℤ → Bool
is_negative n = ltb_ℤ n (pos 0)

abbrev pub is_nonpositive : ℤ → Bool
is_nonpositive n = leb_ℤ n (pos 0)

abbrev pub server_checks : ServerConfig → List (Bool × Fault)
server_checks s =
    (str_eq s.host [] || has_blank s.host, bad_host)
    ∷ (outside_of (pos 1) (pos 65535) s.port, bad_port)
    ∷ (ltb_ℤ s.max_connections (pos 1), bad_max_connections)
    ∷ (outside_of (pos 1) s.max_connections s.max_connections_per_ip, bad_connections_per_ip)
    ∷ (outside_of (pos 1024) (pos 16_777_216) s.max_header_bytes, bad_header_bytes)
    ∷ (
      is_negative s.http2_send_ping_timeout
          || (is_negative s.http2_ping_timeout || is_negative s.http2_write_byte_timeout),
      bad_http2_timeouts,
    )
    ∷ (
      is_nonpositive s.read_header_timeout
          || (is_nonpositive s.idle_timeout || is_nonpositive s.shutdown_timeout),
      bad_server_timeouts,
    )
    ∷ (
      not (str_eq s.tls.cert_file []) && str_eq s.tls.key_file []
          || str_eq s.tls.cert_file [] && not (str_eq s.tls.key_file []),
      half_tls,
    )
    ∷ []

abbrev pub check_validity : Outside → Option (ℤ × ℤ) → Option Fault
check_validity out none = some unparsed_tls
check_validity out (some (not_before, not_after)) =
    if ltb_ℤ out.now not_before || not (ltb_ℤ out.now not_after) then some expired_tls else none

abbrev pub check_leaf : Outside → Option Bytes → Option Fault
check_leaf out none = some unloaded_tls
check_leaf out (some leaf) = check_validity out (out.parse_certificate leaf)

unfoldable pub check_tls : Outside → TlsConfig → Option Fault
check_tls out tls =
    if str_eq tls.cert_file []
    then none
    else check_leaf out (out.load_pair tls.cert_file tls.key_file)

unfoldable pub is_local : Outside → Bytes → Bool
is_local out host = out.is_localhost host || out.is_loopback host

abbrev pub exposure_checks : Outside → ServerConfig → AuthConfig → List (Bool × Fault)
exposure_checks out s a =
    (
      not (is_local out s.host) && (str_eq s.tls.cert_file [] && not s.allow_insecure_public_http),
      public_http,
    )
    ∷ (
      not (is_local out s.host) && (not a.enabled && not s.allow_unauthenticated_public_proxy),
      public_proxy,
    )
    ∷ []

abbrev pub auth_checks : AuthConfig → List (Bool × Fault)
auth_checks a =
    (outside_of (pos 1) (pos 1000) a.max_failed_attempts, bad_attempts)
    ∷ (is_nonpositive a.failure_window || is_nonpositive a.block_duration, bad_failure_times)
    ∷ (outside_of (pos 1) (pos 65536) a.max_tracked_ips, bad_tracked_ips)
    ∷ (
      a.enabled && (str_eq a.username [] || (str_eq a.password [] || contains b':' a.username)),
      bad_login,
    )
    ∷ (
      a.enabled
          && (str_eq a.username (codes "<set-username>")
              || (str_eq a.password (codes "<set-strong-password>")
                  || (str_eq a.username (codes "admin") && str_eq a.password (codes "password")))),
      sample_login,
    )
    ∷ []

abbrev pub proxy_checks : ServerConfig → ProxyConfig → List (Bool × Fault)
proxy_checks s p =
    (
      not (str_eq p.algorithm (codes "roundrobin")) && not (str_eq p.algorithm (codes "random")),
      bad_algorithm,
    )
    ∷ (
      ltb_ℤ p.timeout (pos 1)
          || (ltb_ℤ p.max_tunnels (pos 1)
              || (is_nonpositive p.tunnel_idle_timeout || is_nonpositive p.failover_cooldown)),
      bad_proxy_limits,
    )
    ∷ (outside_of (pos 1) p.max_tunnels p.max_tunnels_per_ip, bad_tunnels_per_ip)
    ∷ (
      is_negative s.http2_max_concurrent_streams
          || (ltb_ℤ p.max_tunnels s.http2_max_concurrent_streams
              || ltb_ℤ p.max_tunnels_per_ip s.http2_max_concurrent_streams),
      bad_streams,
    )
    ∷ (
      not (str_eq p.network (codes "auto"))
          && (not (str_eq p.network (codes "tcp4")) && not (str_eq p.network (codes "tcp6"))),
      bad_network,
    )
    ∷ (is_nonpositive p.response_body_idle_timeout, bad_body_timeout)
    ∷ (
      is_nonpositive p.dial_timeout
          || (is_nonpositive p.dial_keep_alive
              || (is_nonpositive p.tls_handshake_timeout
                  || (is_nonpositive p.response_header_timeout
                      || (is_nonpositive p.idle_conn_timeout
                          || is_negative p.expect_continue_timeout)))),
      bad_transport_timeouts,
    )
    ∷ (
      is_negative p.max_idle_conns
          || (is_negative p.max_idle_conns_per_host || is_negative p.max_conns_per_host),
      bad_pool_limits,
    )
    ∷ []

abbrev pub at_index : ℕ → Option UpstreamFault → Option Fault
at_index i none = none
at_index i (some f) = some (bad_upstream i f)

-- The loop over the upstreams from index `i`.
abbrev pub check_upstreams : Files → ℕ → List UpstreamConfig → Option Fault
check_upstreams files i [] = none
check_upstreams files i (up ∷ ups) =
    or_else (at_index i (check_upstream files up)) (check_upstreams files (suc i) ups)

abbrev pub check_any : Files → List UpstreamConfig → Option Fault
check_any files [] = some no_upstreams
check_any files (up ∷ ups) = check_upstreams files 0 (up ∷ ups)

-- An error, or none where the configuration is accepted. A missing configuration is Go's nil.
unfoldable pub validate : Outside → Option Config → Option Fault
validate out none = some no_config
validate out (some cfg) = or_else (first_fault (server_checks cfg.server)) (
    or_else (check_tls out cfg.server.tls) (
      or_else (first_fault (exposure_checks out cfg.server cfg.auth)) (
        or_else (first_fault (auth_checks cfg.auth)) (
          or_else (first_fault (proxy_checks cfg.server cfg.proxy))
            (check_any out.files cfg.upstreams)))))
