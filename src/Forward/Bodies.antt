-- ===== src/Forward/Bodies.antt =====
-- internal/proxy/http.go: the response bodies that the upstreams' clients give.
use go_proxy_mux.Prelude.{
  ℕ, zero, suc, ◌+◌, ◌≡◌, refl, Bool, Bool-cases, inl, inr, Option, none, some, arith, ◌==◌, ◌&&◌,
}
use go_proxy_mux.Prelude.Int.{pos}
use go_proxy_mux.Balancer.{Balancer, Selection, next, mark_failure}
use go_proxy_mux.Forward.{
  Request, Response, Did, Done, Error, Surroundings, Reply, Forwarded, can_retry, outgoing,
  do_http_request, finished, count, write_upstream_error, upstream_login_failed, marked, alternate,
  fail_over, on_done, is_first, attempts, forward_request, is_bad_target, target_of,
}

-- An error leaves no body open, and an answer leaves its own.
pub record Accounted (d : Done) : Type 0 where
  pub balance : d.closed + count d.answer ≡ d.opened

do_http_request-Accounted :
    (timer_first : Bool) (did : Did) → Accounted (do_http_request timer_first did)
unfolding do_http_request
do_http_request-Accounted timer_first did = elim (Bool-cases timer_first) [
  | inl late ↦ rw late (record { balance = omega arith })
  | inr in_time ↦ rw in_time (finished-Accounted did.response did.error)
]
  where
    finished-Accounted :
        (response : Option Response) (error : Option Error) → Accounted (finished response error)
    finished-Accounted response none = record { balance = omega arith }
    finished-Accounted response (some error) = record { balance = omega arith }

AllClosed : Forwarded → Type 0
AllClosed t = t.closed ≡ t.opened

alternate-AllClosed :
    (out : Surroundings) (r : Request) (d : Done) (reply : Reply) (i closing : ℕ)
    (again : Balancer → Selection → Forwarded) (found : Balancer × Option Selection)
    → d.closed + closing ≡ d.opened
    → ((b : Balancer) (s : Selection) → AllClosed (again b s))
    → AllClosed (alternate (outgoing out r) d reply i closing again found)
unfolding AllClosed
alternate-AllClosed out r d reply i closing again (b, none) e h = e
alternate-AllClosed out r d reply i closing again (b, some other) e h = omega (arith, h b other)

fail_over-AllClosed :
    (out : Surroundings) (r : Request) (first : Bool) (n : ℕ) (d : Done) (reply : Reply)
    (closing : ℕ) (again : Balancer → Selection → Forwarded) (i : ℕ) (b : Balancer)
    → d.closed + closing ≡ d.opened
    → ((b : Balancer) (s : Selection) → AllClosed (again b s))
    → AllClosed (fail_over out r first n d reply closing again i b)
unfolding fail_over AllClosed
fail_over-AllClosed out r first n d reply closing again i b e h =
    elim (Bool-cases (can_retry r && first)) [
      | inl retry ↦ rw retry (
          alternate-AllClosed out r d reply i closing again
            (next b (pos i) (out.chosen_at n) out.draw) e h)
      | inr last ↦ rw last e
    ]

on_done-AllClosed :
    (out : Surroundings) (r : Request) (first : Bool) (n : ℕ) (d : Done)
    (again : Balancer → Selection → Forwarded) (b : Balancer) (i : ℕ) (answer : Option Response)
    → d.closed + count answer ≡ d.opened
    → ((b : Balancer) (s : Selection) → AllClosed (again b s))
    → AllClosed (on_done out r first n d again b i answer)
unfolding AllClosed
on_done-AllClosed out r first n d again b i none e h = elim (Bool-cases (out.client_gone n)) [
  | inl left ↦ rw left e
  | inr here ↦ rw here (
      fail_over-AllClosed out r first n d (write_upstream_error d.error) 0 again i
        (marked out n b i d.error) e h)
]
on_done-AllClosed out r first n d again b i (some response) e h =
    elim (Bool-cases (response.status == 407)) [
      | inl refused ↦ rw refused (
          fail_over-AllClosed out r first n d upstream_login_failed 1 again i
            (mark_failure b (out.failed_at n) (pos i)) e h)
      | inr served ↦ rw served e
    ]

attempts-AllClosed :
    (out : Surroundings) (r : Request) (rounds n : ℕ) (b : Balancer) (s : Selection)
    → AllClosed (attempts out r rounds n b s)
unfolding attempts AllClosed
attempts-AllClosed out r zero n b s = refl
attempts-AllClosed out r (suc rounds) n b s =
    let d = do_http_request (out.timer_first n s.index) (out.did n s.index) in
    on_done-AllClosed out r (is_first n) n d (attempts out r rounds (suc n)) b s.index d.answer
      (do_http_request-Accounted (out.timer_first n s.index) (out.did n s.index)).balance
      (λ b' s'. attempts-AllClosed out r rounds (suc n) b' s')

-- On every path of forwardRequest, refused logins, retries, errors and lost races with the timer
-- included, as many response bodies have been closed in the end as were opened.
pub forward_request_closes :
    (out : Surroundings) (b : Balancer) (r : Request) (s : Selection)
    → let t = forward_request out b r s in t.closed ≡ t.opened
unfolding forward_request AllClosed
forward_request_closes out b r s = elim (Bool-cases (is_bad_target out (target_of r))) [
  | inl bad ↦ rw bad
  | inr good ↦ rw good (attempts-AllClosed out r 2 0 b s)
]
