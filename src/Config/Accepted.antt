-- ===== src/Config/Accepted.antt =====
-- internal/config/validate.go: what a configuration that Validate accepts gives to the parts of the
-- program that read it.
use go_proxy_mux.Prelude.{
  ◌≡◌, refl, ◌≢◌, ◌⊎◌, inl, inr, true, false, Bool-cases, not, ◌&&◌, ◌||◌, [], Option, none, some,
  arith, All,
}
use go_proxy_mux.Prelude.Int.{ℤ, pos, ◌≤ℤ◌, ◌<ℤ◌}
use go_proxy_mux.Prelude.Bytes.{Bytes, str_eq, str_eq_iff}
use go_proxy_mux.Prelude.Checks.{first_fault, or_else-eq-none, first_fault-eq-none}
use go_proxy_mux.Net.{contains}
use go_proxy_mux.Config.{Config}
use go_proxy_mux.Config.Validate.{
  Outside, server_checks, check_validity, check_leaf, check_tls, is_local, exposure_checks,
  auth_checks, proxy_checks, check_any, validate,
}

-- Every part of the checks passed.
pub record Passed (out : Outside) (cfg : Config) : Type 0 where
  pub server : All (λ check. check.0 ≡ false) (server_checks cfg.server)
  pub tls : check_tls out cfg.server.tls ≡ none
  pub exposure : All (λ check. check.0 ≡ false) (exposure_checks out cfg.server cfg.auth)
  pub auth : All (λ check. check.0 ≡ false) (auth_checks cfg.auth)
  pub proxy : All (λ check. check.0 ≡ false) (proxy_checks cfg.server cfg.proxy)
  pub upstreams : check_any out.files cfg.upstreams ≡ none

pub validate-Passed :
    (out : Outside) (cfg : Config) → validate out (some cfg) ≡ none → Passed out cfg
unfolding validate
validate-Passed out cfg e =
    let (server, e1) = or_else-eq-none (first_fault (server_checks cfg.server)) _ e in
    let (tls, e2) = or_else-eq-none (check_tls out cfg.server.tls) _ e1 in
    let (exposure, e3) =
      or_else-eq-none (first_fault (exposure_checks out cfg.server cfg.auth)) _ e2 in
    let (auth, e4) = or_else-eq-none (first_fault (auth_checks cfg.auth)) _ e3 in
    let (proxy, e5) = or_else-eq-none (first_fault (proxy_checks cfg.server cfg.proxy)) _ e4 in
    record {
      server = first_fault-eq-none (server_checks cfg.server) server;
      tls = tls;
      exposure = first_fault-eq-none (exposure_checks out cfg.server cfg.auth) exposure;
      auth = first_fault-eq-none (auth_checks cfg.auth) auth;
      proxy = first_fault-eq-none (proxy_checks cfg.server cfg.proxy) proxy;
      upstreams = e5;
    }

-- The bounds that the limiters, the failed logins and the balancer are made with.
pub record Bounded (cfg : Config) : Type 0 where
  pub connections : pos 1 ≤ℤ cfg.server.max_connections
  pub connections_per_ip : pos 1 ≤ℤ cfg.server.max_connections_per_ip
  pub connections_in_all : cfg.server.max_connections_per_ip ≤ℤ cfg.server.max_connections
  pub tunnels : pos 1 ≤ℤ cfg.proxy.max_tunnels
  pub tunnels_per_ip : pos 1 ≤ℤ cfg.proxy.max_tunnels_per_ip
  pub tunnels_in_all : cfg.proxy.max_tunnels_per_ip ≤ℤ cfg.proxy.max_tunnels
  pub streams : cfg.server.http2_max_concurrent_streams ≤ℤ cfg.proxy.max_tunnels_per_ip
  pub attempts : pos 1 ≤ℤ cfg.auth.max_failed_attempts
  pub window : pos 0 <ℤ cfg.auth.failure_window
  pub block : pos 0 <ℤ cfg.auth.block_duration
  pub tracked : pos 1 ≤ℤ cfg.auth.max_tracked_ips
  pub tracked_at_most : cfg.auth.max_tracked_ips ≤ℤ pos 65536
  pub cooldown : pos 0 <ℤ cfg.proxy.failover_cooldown

-- In a configuration that Validate accepts these are each at least one: max_connections,
-- max_connections_per_ip, max_tunnels, max_tunnels_per_ip and max_failed_attempts. The connections
-- and the tunnels for one address are not above those for all, http2_max_concurrent_streams is not
-- above the tunnels for one address, max_tracked_ips is between 1 and 65536, and failure_window,
-- block_duration and failover_cooldown are positive.
pub validate-Bounded : (out : Outside) (cfg : Config) → validate out (some cfg) ≡ none → Bounded cfg
validate-Bounded out cfg e =
    let p = validate-Passed out cfg e in
    let (_, (_, (total, (per_ip, _)))) = p.server in
    let (attempts, (times, (tracked, _))) = p.auth in
    let (_, (limits, (tunnels, (streams, _)))) = p.proxy in
    record {
      connections = ground arith;
      connections_per_ip = ground arith;
      connections_in_all = ground arith;
      tunnels = ground arith;
      tunnels_per_ip = ground arith;
      tunnels_in_all = ground arith;
      streams = ground arith;
      attempts = ground arith;
      window = ground arith;
      block = ground arith;
      tracked = ground arith;
      tracked_at_most = ground arith;
      cooldown = ground arith;
    }

-- A certificate that loads and whose validity holds now.
pub record Certified (out : Outside) (cert_file key_file : Bytes) : Type 0 where
  pub leaf : Bytes
  pub not_before : ℤ
  pub not_after : ℤ
  pub is_loaded : out.load_pair cert_file key_file ≡ some leaf
  pub is_parsed : out.parse_certificate leaf ≡ some (not_before, not_after)
  pub is_begun : not_before ≤ℤ out.now
  pub is_unexpired : out.now <ℤ not_after

validity :
    (out : Outside) (cert key leaf : Bytes) (v : Option (ℤ × ℤ))
    → out.load_pair cert key ≡ some leaf
    → out.parse_certificate leaf ≡ v
    → check_validity out v ≡ none
    → Certified out cert key
validity out cert key leaf none l p e = absurd (ground arith)
validity out cert key leaf (some (begin, end')) l p e = record {
  leaf = leaf;
  not_before = begin;
  not_after = end';
  is_loaded = l;
  is_parsed = p;
  is_begun = ground arith;
  is_unexpired = ground arith;
}

loaded :
    (out : Outside) (cert key : Bytes) (v : Option Bytes)
    → out.load_pair cert key ≡ v
    → check_leaf out v ≡ none
    → Certified out cert key
loaded out cert key none l e = absurd (ground arith)
loaded out cert key (some leaf) l e = validity out cert key leaf _ l refl e

str_eq-false : (a b : Bytes) → a ≢ b → str_eq a b ≡ false
str_eq-false a b h = elim (Bool-cases (str_eq a b)) [
  | inl same ↦ absurd (h ((str_eq_iff a b).0 same))
  | inr other ↦ other
]

check_tls-Certified :
    (out : Outside) (cfg : Config)
    → check_tls out cfg.server.tls ≡ none
    → cfg.server.tls.cert_file ≢ []
    → Certified out cfg.server.tls.cert_file cfg.server.tls.key_file
unfolding check_tls
check_tls-Certified out cfg e h =
    loaded out cfg.server.tls.cert_file cfg.server.tls.key_file _ refl
      (rw (str_eq-false cfg.server.tls.cert_file [] h) at e)

-- What a listener that the network reaches has: TLS and a login, each unless the configuration
-- says that it goes without.
pub record Guarded (out : Outside) (cfg : Config) : Type 0 where
  pub is_encrypted :
      Certified out cfg.server.tls.cert_file cfg.server.tls.key_file
      ⊎ (cfg.server.allow_insecure_public_http ≡ true)
  pub has_login :
      ((cfg.auth.enabled ≡ true) × (cfg.auth.username ≢ []) × (cfg.auth.password ≢ []))
      ⊎ (cfg.server.allow_unauthenticated_public_proxy ≡ true)

pub filled : (s : Bytes) → str_eq s [] ≡ false → s ≢ []
filled s h e = let same = (str_eq_iff s []).1 e in ground arith

encrypted :
    (out : Outside) (cfg : Config)
    → check_tls out cfg.server.tls ≡ none
    → (str_eq cfg.server.tls.cert_file [] && not cfg.server.allow_insecure_public_http) ≡ false
    → Certified out cfg.server.tls.cert_file cfg.server.tls.key_file
      ⊎ (cfg.server.allow_insecure_public_http ≡ true)
encrypted out cfg tls e = elim (Bool-cases (str_eq cfg.server.tls.cert_file [])) [
  | inl no_file ↦ inr (ground arith)
  | inr file ↦ inl (check_tls-Certified out cfg tls (filled _ file))
]

logged_in :
    (cfg : Config)
    → (not cfg.auth.enabled && not cfg.server.allow_unauthenticated_public_proxy) ≡ false
    → (cfg.auth.enabled
        && (str_eq cfg.auth.username []
            || (str_eq cfg.auth.password [] || contains b':' cfg.auth.username)))
      ≡ false
    → ((cfg.auth.enabled ≡ true) × (cfg.auth.username ≢ []) × (cfg.auth.password ≢ []))
      ⊎ (cfg.server.allow_unauthenticated_public_proxy ≡ true)
logged_in cfg e f = elim (Bool-cases cfg.auth.enabled) [
  | inl on ↦
      inl (on, filled cfg.auth.username (ground arith), filled cfg.auth.password (ground arith))
  | inr off ↦ inr (ground arith)
]

-- A configuration that Validate accepts, and whose listener is neither localhost nor a loopback
-- address, has a certificate that is valid now or allows public HTTP by name, and asks for a user
-- and a password that are not empty or allows the unauthenticated proxy by name.
pub validate-Guarded :
    (out : Outside) (cfg : Config)
    → validate out (some cfg) ≡ none
    → is_local out cfg.server.host ≡ false
    → Guarded out cfg
validate-Guarded out cfg e public_host =
    let p = validate-Passed out cfg e in
    let (http, (login, _)) = p.exposure in
    let (_, (_, (_, (names, _)))) = p.auth in
    record {
      is_encrypted = encrypted out cfg p.tls (ground arith);
      has_login = logged_in cfg (ground arith) names;
    }
