-- ===== src/Serve/Fine.antt =====
-- internal/proxy/server.go: one request, on a server whose parts are consistent.
use go_proxy_mux.Prelude.{
  ◌≡◌, refl, sym, ap, ◌∙◌, subst, ◌≢◌, inl, inr, Bool, true, Bool-cases, List, [], ◌∷◌, Option,
  none, some, arith, All, ℕ, ◌<◌, length, false, if◌then◌else◌,
}
use go_proxy_mux.Prelude.Int.{ℤ, pos, negsuc, ltb_ℤ}
use go_proxy_mux.Prelude.Bytes.{codes, str_eq}
use go_proxy_mux.Balancer.{Balancer, Selection, next}
use go_proxy_mux.Limits.{Limiter}
use go_proxy_mux.Limits.Accept.{address_host}
use go_proxy_mux.Limits.Counts.{Tally}
use go_proxy_mux.AuthLimit.{AuthFailureLimiter}
use go_proxy_mux.AuthLimit.Refines
use go_proxy_mux.AuthLimit.Refines.{new-IsValid, attempt-Done}
use go_proxy_mux.Connect.{handle_connect}
use go_proxy_mux.Connect.Release.{SameCounts, handle_connect-SameCounts}
use go_proxy_mux.Serve.{
  from_connect, from_forward, all_below, sent_to, connected, forwarded, ProxyServer, Request,
  to_connect, to_forward, Surroundings, Answer, panicked, is_valid, judged, admit, dispatch, go_on,
  serve_http,
}
use go_proxy_mux.Serve.Sound.{Sound, ChosenBelow, IsBounded, next-Sound}
use go_proxy_mux.Serve.KeptConnect.{handle_connect-Kept}
use go_proxy_mux.Serve.KeptForward.{forward_request-Kept}
use go_proxy_mux.Forward.{forward_request}
use go_proxy_mux.Serve.Admission.{admit_on, admit_off}

-- The balancer and the failed logins are as their components want them, the balancer and the
-- transports are as many as the upstreams, and every tunnel's place has been given back.
pub record IsValid (s : ProxyServer) : Type 0 where
  pub balanced : Sound (length s.config.upstreams) s.balancer
  pub transports : length s.transports ≡ length s.config.upstreams
  pub given_back : Tally s.tunnel_limiter []
  pub limited :
      s.config.auth.enabled ≡ true
      → (l : AuthFailureLimiter) × (s.auth_failures ≡ some l) × Refines.IsValid l

-- A step on a server, and an answer that is no panic.
pub record Fine (s : ProxyServer) (answer : Option Answer) : Type 0 where
  pub valid : IsValid s
  pub no_panic : answer ≢ some panicked

judged-Fine :
    (s : ProxyServer) (valid : Bool) (l : AuthFailureLimiter) (block : ℤ)
    → IsValid s
    → Refines.IsValid l
    → (let (s', answer) = judged s valid (some (l, block)) in Fine s' answer)
unfolding judged
judged-Fine s valid l block v lv =
    let v' : IsValid (record s { auth_failures = some l }) = record {
      balanced = v.balanced;
      transports = v.transports;
      given_back = v.given_back;
      limited = λ on. (l, refl, lv);
    } in
    elim (Bool-cases (ltb_ℤ (pos 0) block)) [
      | inl blocked ↦ rw blocked (record { valid = v'; no_panic = λ e. ground arith })
      | inr free ↦ elim (Bool-cases valid) [
        | inl right ↦ rw (free, right) (record { valid = v'; no_panic = λ e. ground arith })
        | inr wrong ↦ rw (free, wrong) (record { valid = v'; no_panic = λ e. ground arith })
      ]
    ]

admit-Fine :
    (out : Surroundings) (s : ProxyServer) (r : Request)
    → IsValid s
    → (let (s', answer) = admit out s r in Fine s' answer)
admit-Fine out s r v = elim (Bool-cases s.config.auth.enabled) [
  | inl on ↦
      let (l, same, lv) = v.limited on in
      let ok = is_valid out s r in
      let done = attempt-Done l (address_host r.remote_addr) ok out.attempted_at lv in
      subst (λ a. Fine a.0 a.1)
        (sym (admit_on out s r (some l) on same ∙ ap (judged s ok) done.returns))
        (judged-Fine s ok done.after _ v done.valid)
  | inr off ↦
      subst (λ a. Fine a.0 a.1) (sym (admit_off out s r off))
        (record { valid = v; no_panic = λ e. ground arith })
]

kept_back : (l l' : Limiter) → SameCounts l l' → Tally l [] → Tally l' []
kept_back l l' same t = record {
  total = same.total ∙ t.total;
  per_key = λ k. same.per_key k ∙ t.per_key k;
}

all_below-All : (n : ℕ) (is : List ℕ) → All (λ i. i < n) is → all_below n is ≡ true
unfolding all_below
all_below-All n [] h = refl
all_below-All n (i ∷ is) (below, h) = ground (arith, all_below-All n is h)

no_panic_if :
    (answer : Answer) (test : Bool)
    → test ≡ true
    → answer ≢ panicked
    → some (if test then answer else panicked) ≢ some panicked
no_panic_if answer true e h same = h (ground arith)
no_panic_if answer false e h same = absurd (ground arith)

module _ (out : Surroundings) (s : ProxyServer) (r : Request) (b : Balancer) (selected : Selection)
    (v : IsValid s) where
  from_connect-Fine :
      IsBounded out.connect.draw
      → Sound (length s.config.upstreams) b
      → selected.index < length s.config.upstreams
      → let t =
          from_connect s (handle_connect out.connect s.tunnel_limiter b (to_connect r) selected) in
        Fine t.server (some t.answer)
  from_connect-Fine bounded bv below =
      let size = length s.config.upstreams in
      let h = handle_connect out.connect s.tunnel_limiter b (to_connect r) selected in
      let k =
        handle_connect-Kept size out.connect bounded s.tunnel_limiter b (to_connect r) selected bv
          below in
      record {
        valid = record {
          balanced = k.sound;
          transports = v.transports;
          given_back =
              kept_back s.tunnel_limiter h.limiter
                (handle_connect-SameCounts out.connect s.tunnel_limiter b (to_connect r) selected []
                  v.given_back)
                v.given_back;
          limited = v.limited;
        };
        no_panic =
            no_panic_if (connected h.tried.reply) (all_below size h.tried.dialed)
              (all_below-All size h.tried.dialed k.within) (λ e. ground arith);
      }

  from_forward-Fine :
      IsBounded out.forward.draw
      → Sound (length s.config.upstreams) b
      → selected.index < length s.config.upstreams
      → let t = from_forward s (forward_request out.forward b (to_forward r) selected) in
        Fine t.server (some t.answer)
  from_forward-Fine bounded bv below =
      let size = length s.config.upstreams in
      let t = forward_request out.forward b (to_forward r) selected in
      let k = forward_request-Kept size out.forward (to_forward r) bounded b selected bv below in
      record {
        valid = record {
          balanced = k.sound;
          transports = v.transports;
          given_back = v.given_back;
          limited = v.limited;
        };
        no_panic =
            no_panic_if (forwarded t.reply) (all_below (length s.transports) (sent_to t.sent))
              (rw v.transports (all_below-All size (sent_to t.sent) k.within)) (λ e. ground arith);
      }

dispatch-Fine :
    (out : Surroundings) (s : ProxyServer) (r : Request) (found : Balancer × Option Selection)
    → IsValid s
    → IsBounded out.connect.draw
    → IsBounded out.forward.draw
    → Sound (length s.config.upstreams) found.0 × ChosenBelow (length s.config.upstreams) found.1
    → (let t = dispatch out s r found in Fine t.server (some t.answer))
unfolding dispatch
dispatch-Fine out s r (b, none) v dc df (bv, c) = record {
  valid = record {
    balanced = bv;
    transports = v.transports;
    given_back = v.given_back;
    limited = v.limited;
  };
  no_panic = λ e. ground arith;
}
dispatch-Fine out s r (b, some selected) v dc df (bv, below) =
    elim (Bool-cases (str_eq r.method (codes "CONNECT"))) [
      | inl connecting ↦ rw connecting (from_connect-Fine out s r b selected v dc bv below)
      | inr plain ↦ rw plain (from_forward-Fine out s r b selected v df bv below)
    ]

-- The draws of the random source are below their bound, in every Next that a request leads to.
pub record Draws (out : Surroundings) : Type 0 where
  pub first : IsBounded out.draw
  pub connect : IsBounded out.connect.draw
  pub forward : IsBounded out.forward.draw

go_on-Fine :
    (out : Surroundings) (r : Request) (s : ProxyServer) (answer : Option Answer)
    → Draws out
    → Fine s answer
    → (let t = go_on out r (s, answer) in Fine t.server (some t.answer))
unfolding go_on
go_on-Fine out r s (some answer) d f = f
go_on-Fine out r s none d f =
    dispatch-Fine out s r (next s.balancer (negsuc 0) out.chosen_at out.draw) f.valid d.connect
      d.forward
      (next-Sound (length s.config.upstreams) s.balancer (negsuc 0) out.chosen_at out.draw d.first
        f.valid.balanced)

pub serve_http-Fine :
    (out : Surroundings) (s : ProxyServer) (r : Request)
    → Draws out
    → IsValid s
    → (let t = serve_http out s r in Fine t.server (some t.answer))
unfolding serve_http
serve_http-Fine out s r d v =
    go_on-Fine out r (admit out s r).0 (admit out s r).1 d (admit-Fine out s r v)
