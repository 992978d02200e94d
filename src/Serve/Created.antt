-- ===== src/Serve/Created.antt =====
-- internal/proxy/server.go: the server that NewProxyServer makes is consistent.
use go_proxy_mux.Prelude.{
  ◌≡◌, refl, sym, ap, ◌∙◌, Bool, List, [], ◌∷◌, Option, none, some, arith, ℕ, suc, length,
}
use go_proxy_mux.Prelude.Int.{ℤ}
use go_proxy_mux.Config.{Config}
use go_proxy_mux.Config.Validate.{Outside, validate}
use go_proxy_mux.Config.Accepted.{validate-Bounded}
use go_proxy_mux.Balancer.{new}
use go_proxy_mux.Balancer.Health
use go_proxy_mux.Limits.{new_concurrent_limiter}
use go_proxy_mux.Prelude.Dict.{lookup}
use go_proxy_mux.Limits.Counts.{Tally, live, live_of}
use go_proxy_mux.AuthLimit.{new_auth_failure_limiter}
use go_proxy_mux.AuthLimit.Refines.{new-IsValid}
use go_proxy_mux.Serve.{unbuilt, created, with_checked, ProxyServer, server_of}
use go_proxy_mux.Config.{ProxyConfig, UpstreamConfig}
use go_proxy_mux.Config.Upstream.{Files}
use go_proxy_mux.Config.Validate.{Fault}
use go_proxy_mux.Serve.Transports.{
  Transport, Built, built, fails, ◌>>=◌, make_transport, make_transports,
}
use go_proxy_mux.Serve.Fine.{IsValid}

new-Tally : (total per_key : ℤ) → Tally (new_concurrent_limiter total per_key) []
unfolding new_concurrent_limiter live live_of lookup
new-Tally total per_key = record { total = refl; per_key = λ k. refl }

built_inj : {A : Type 0} {x y : A} → built x ≡ built y → x ≡ y
built_inj e = ground arith

pub server_of-IsValid :
    (out : Outside) (cfg : Config) (transports : List Transport)
    → validate out (some cfg) ≡ none
    → length transports ≡ length cfg.upstreams
    → IsValid (server_of cfg transports)
unfolding new
server_of-IsValid out cfg transports e same =
    let bounds = validate-Bounded out cfg e in
    record {
      balanced = record { valid = Health.new-IsValid cfg.proxy cfg.upstreams; size = refl };
      transports = same;
      given_back = new-Tally cfg.proxy.max_tunnels cfg.proxy.max_tunnels_per_ip;
      limited =
          λ on. (new_auth_failure_limiter cfg.auth, rw on, new-IsValid cfg.auth bounds.tracked);
    }

pub length-make_transports :
    (cfg : ProxyConfig) (files : Files) (roots_fail : Bool) (i : ℕ) (ups : List UpstreamConfig)
    (ts : List Transport)
    → make_transports cfg files roots_fail i ups ≡ built ts
    → length ts ≡ length ups
unfolding make_transports
length-make_transports cfg files roots_fail i [] ts e = ap length (built_inj (sym e))
length-make_transports cfg files roots_fail i (up ∷ ups) ts e =
    of_first (make_transport cfg files roots_fail i up)
      (make_transports cfg files roots_fail (suc i) ups)
      (length-make_transports cfg files roots_fail (suc i) ups) e
  where
    of_first :
        (first : Built Transport) (rest : Built (List Transport))
        → ((us : List Transport) → rest ≡ built us → length us ≡ length ups)
        → (first >>= λ t. rest >>= λ us. built (t ∷ us)) ≡ built ts
        → length ts ≡ suc (length ups)
    of_first (fails x) rest h e = absurd (ground arith)
    of_first (built t) (fails x) h e = absurd (ground arith)
    of_first (built t) (built us) h e = ap length (built_inj (sym e)) ∙ ap suc (h us refl)

-- What a server that was created has behind it.
pub record Origin (out : Outside) (roots_fail : Bool) (cfg : Config) (s : ProxyServer)
    : Type 0 where
  pub checked : validate out (some cfg) ≡ none
  pub transports : List Transport
  pub made : make_transports cfg.proxy out.files roots_fail 0 cfg.upstreams ≡ built transports
  pub same : server_of cfg transports ≡ s

pub created-Origin :
    (out : Outside) (roots_fail : Bool) (cfg : Config) (s : ProxyServer) (fault : Option Fault)
    (ts : Built (List Transport))
    → validate out (some cfg) ≡ fault
    → make_transports cfg.proxy out.files roots_fail 0 cfg.upstreams ≡ ts
    → with_checked out roots_fail cfg fault ≡ created s
    → Origin out roots_fail cfg s
created-Origin out roots_fail cfg s (some fault) ts q m e = absurd (ground arith)
created-Origin out roots_fail cfg s none (fails x) q m e =
    let never : unbuilt x ≡ created s = rw m at e in absurd (ground arith)
created-Origin out roots_fail cfg s none (built ts) q m e =
    let made : created (server_of cfg ts) ≡ created s = rw m at e in
    record { checked = q; transports = ts; made = m; same = ground arith }
