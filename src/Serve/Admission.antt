-- ===== src/Serve/Admission.antt =====
-- internal/proxy/server.go, ServeHTTP: who is let in.
use go_proxy_mux.Prelude.{
  ℕ, ◌+◌, ◌*◌, ◌≤◌, ◌<◌, ◌≡◌, refl, sym, ap, ◌∙◌, subst, ◌⊎◌, inl, inr, Bool, true, false,
  Bool-cases, [], Option, none, some, arith, if◌then◌else◌,
}
use go_proxy_mux.Prelude.Int.{ℤ, pos, ltb_ℤ, ◌<ℤ◌}
use go_proxy_mux.Limits.Accept.{address_host}
use go_proxy_mux.AuthLimit.{AuthFailureLimiter, find, normal_ip}
use go_proxy_mux.AuthLimit.Judge.{judge}
use go_proxy_mux.AuthLimit.Refines.{IsValid, attempt-Done}
use go_proxy_mux.Serve.{
  ProxyServer, Request, Surroundings, Answer, retry_after, login_required, Served, whole_seconds,
  is_valid, judged, check_login, admit, go_on, serve_http,
}

-- The block that the specification gives for the client's address.
abbrev pub block_of : Surroundings → ProxyServer → Request → AuthFailureLimiter → ℤ
block_of out s r l =
    let ip = normal_ip (address_host r.remote_addr) in
    (judge l.policy (find ip l.oldest_first) ip (is_valid out s r) out.attempted_at).1

abbrev pub refusal : ℤ → Answer
refusal block = if ltb_ℤ (pos 0) block then retry_after (whole_seconds block) else login_required

pub record TurnedAway (s : ProxyServer) (answer : Answer) (t : Served) : Type 0 where
  pub no_one_asked : t.asked ≡ []
  pub same_balancer : t.server.balancer ≡ s.balancer
  pub same_tunnels : t.server.tunnel_limiter ≡ s.tunnel_limiter
  pub answered : t.answer ≡ answer

judged_refuses :
    (out : Surroundings) (s : ProxyServer) (r : Request) (valid : Bool) (l : AuthFailureLimiter)
    (block : ℤ)
    → (valid ≡ false) ⊎ (pos 0 <ℤ block)
    → judged s valid (some (l, block)) ≡ (record s { auth_failures = some l }, some (refusal block))
unfolding judged
judged_refuses out s r valid l block h = elim (Bool-cases (ltb_ℤ (pos 0) block)) [
  | inl blocked ↦ rw blocked
  | inr free ↦ let not_valid : valid ≡ false = ground arith in rw (free, not_valid)
]

pub admit_on :
    (out : Surroundings) (s : ProxyServer) (r : Request) (limiter : Option AuthFailureLimiter)
    → s.config.auth.enabled ≡ true
    → s.auth_failures ≡ limiter
    → admit out s r ≡ check_login out s r limiter
unfolding admit
admit_on out s r limiter on same =
    ap (λ enabled. if enabled then check_login out s r s.auth_failures else (s, none)) on
    ∙ ap (check_login out s r) same

pub admit_off :
    (out : Surroundings) (s : ProxyServer) (r : Request)
    → s.config.auth.enabled ≡ false
    → admit out s r ≡ (s, none)
unfolding admit
admit_off out s r off =
    ap (λ enabled. if enabled then check_login out s r s.auth_failures else (s, none)) off

-- Where a login is asked for, a request without the right one, or from an address that is blocked,
-- reaches no upstream: nobody is asked, the balancer and the tunnels are as before, and the answer
-- is 429 with the block that remains, or 407 without a block.
pub serve_http-TurnedAway :
    (out : Surroundings) (s : ProxyServer) (r : Request) (l : AuthFailureLimiter)
    → s.config.auth.enabled ≡ true
    → s.auth_failures ≡ some l
    → IsValid l
    → (is_valid out s r ≡ false) ⊎ (pos 0 <ℤ block_of out s r l)
    → TurnedAway s (refusal (block_of out s r l)) (serve_http out s r)
unfolding serve_http go_on
serve_http-TurnedAway out s r l on limiter v h =
    let done = attempt-Done l (address_host r.remote_addr) (is_valid out s r) out.attempted_at v in
    let answer = refusal (block_of out s r l) in
    let e : admit out s r ≡ (record s { auth_failures = some done.after }, some answer) =
      admit_on out s r (some l) on limiter
      ∙ ap (judged s (is_valid out s r)) done.returns
      ∙ judged_refuses out s r (is_valid out s r) done.after (block_of out s r l) h in
    subst (λ a. TurnedAway s answer (go_on out r a)) (sym e)
      (record { no_one_asked = refl; same_balancer = refl; same_tunnels = refl; answered = refl })

-- The seconds of Retry-After are the block rounded up.
pub whole_seconds_bounds :
    (n : ℕ)
    → (n ≤ whole_seconds (pos n) * 1_000_000_000)
      × (whole_seconds (pos n) * 1_000_000_000 < n + 1_000_000_000)
unfolding whole_seconds
whole_seconds_bounds n = ground arith
