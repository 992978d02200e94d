-- ===== src/Forward/Attempts.antt =====
-- internal/proxy/http.go: which upstreams forwardRequest asks, and whose answer the client has.
use go_proxy_mux.Prelude.{
  ℕ, ◌<◌, ◌≡◌, refl, sym, ap, ◌⊎◌, inl, inr, true, false, Bool-cases, [], ◌∷◌, Option, none, some,
  arith, ◌∙◌, ◌==◌,
}
use go_proxy_mux.Prelude.Int.{pos}
use go_proxy_mux.Balancer.{Balancer, Selection, next, mark_failure}
use go_proxy_mux.Balancer.Select.{Chosen, next-Chosen}
use go_proxy_mux.Forward.{
  bad_destination, Request, Response, Done, Surroundings, Reply, upstream_login_failed, Forwarded,
  target_of, is_bad_target, can_retry, outgoing, do_http_request, write_upstream_error, marked,
  alternate, fail_over, on_answer, on_error, on_done, attempts, forward_request,
}
use go_proxy_mux.Forward.Relayed.{
  Destination, Servable, is_bad_target-Servable, is_bad_target-never, Relayed, outgoing-Relayed,
  Repeatable, can_retry-Repeatable, can_retry-never, pass_on-handed_on,
}
use go_proxy_mux.Forward.Verdict.{
  verdict, verdict_of, error_verdict, answer_verdict, verdict-verdict_of, here_verdict-parts,
}

-- What the attempts come to. Each sends the same request. The first is the last if its verdict
-- allows no other, or the request may not be repeated, or every other upstream is cooling down.
pub data Attempted (out : Surroundings) (r : Request) (b : Balancer) (s : Selection) (t : Forwarded)
    : Type 0 where
  once :
      (m : Request)
      → Relayed out r m
      → t.sent ≡ (s.index, m) ∷ []
      → t.reply ≡ (verdict out b 0 s.index).reply
      → ((verdict out b 0 s.index).may_follow ≡ false)
        ⊎ ((¬ Repeatable r)
            ⊎ Chosen
                (verdict out b 0 s.index).blamed
                (pos s.index)
                (out.chosen_at 0)
                (t.balancer, none))
      → Attempted out r b s t
  twice :
      (m : Request) (b' : Balancer) (other : Selection)
      → Relayed out r m
      → (verdict out b 0 s.index).may_follow ≡ true
      → Repeatable r
      → Chosen (verdict out b 0 s.index).blamed (pos s.index) (out.chosen_at 0) (b', some other)
      → t.sent ≡ (s.index, m) ∷ (other.index, m) ∷ []
      → t.reply ≡ (verdict out b' 1 other.index).reply
      → Attempted out r b s t

-- What the handler comes to: the destination is refused, or the request is sent.
pub data Forwards (out : Surroundings) (r : Request) (b : Balancer) (s : Selection) (t : Forwarded)
    : Type 0 where
  turned_down :
      (m : Request)
      → Destination r m
      → ¬ Servable out m
      → t.sent ≡ []
      → t.reply ≡ bad_destination
      → t.balancer ≡ b
      → Forwards out r b s t
  let_through :
      (m : Request)
      → Destination r m
      → Servable out m
      → Attempted out r b s t
      → Forwards out r b s t

-- The second attempt goes nowhere else.
second_on :
    (out : Surroundings) (r : Request) (d : Done) (again : Balancer → Selection → Forwarded)
    (b : Balancer) (i : ℕ) (answer : Option Response)
    → let t = on_done out r false 1 d again b i answer in
      (t.sent ≡ (i, outgoing out r) ∷ []) × (t.reply ≡ (verdict_of out b 1 i d answer).reply)
unfolding fail_over verdict_of error_verdict answer_verdict
second_on out r d again b i none = let parts = here_verdict-parts out b 1 i d.error in ground arith
second_on out r d again b i (some response) =
    let same = pass_on-handed_on out 1 i response in ground arith

second :
    (out : Surroundings) (r : Request) (b : Balancer) (s : Selection)
    → let t = attempts out r 1 1 b s in
      (t.sent ≡ (s.index, outgoing out r) ∷ []) × (t.reply ≡ (verdict out b 1 s.index).reply)
unfolding attempts
second out r b s =
    let d = do_http_request (out.timer_first 1 s.index) (out.did 1 s.index) in
    let (sent, replied) = second_on out r d (attempts out r 0 2) b s.index d.answer in
    (sent, replied ∙ ap (λ v. v.reply) (sym (verdict-verdict_of out b 1 s.index)))

module _ (out : Surroundings) (r : Request) (b : Balancer) (s : Selection) where
  alternate-Attempted :
      (d : Done) (reply : Reply) (closing : ℕ) (blamed : Balancer)
      (found : Balancer × Option Selection)
      → verdict out b 0 s.index ≡ record { reply = reply; may_follow = true; blamed = blamed }
      → can_retry r ≡ true
      → Chosen blamed (pos s.index) (out.chosen_at 0) found
      → Attempted out r b s
          (alternate (outgoing out r) d reply s.index closing (attempts out r 1 1) found)
  alternate-Attempted d reply closing blamed (b', none) e retry chosen =
      once (outgoing out r) (outgoing-Relayed out r) refl (ap (λ v. v.reply) (sym e))
        (inr (inr (rw e chosen)))
  alternate-Attempted d reply closing blamed (b', some other) e retry chosen =
      let (sent, answered) = second out r b' other in
      twice (outgoing out r) b' other (outgoing-Relayed out r) (ap (λ v. v.may_follow) e)
        (can_retry-Repeatable r retry) (rw e chosen) (ap (◌∷◌ (s.index, outgoing out r)) sent)
        answered

  fail_over-Attempted :
      ((n : ℕ) → 0 < n → out.draw n < n)
      → (d : Done) (reply : Reply) (closing : ℕ) (blamed : Balancer)
      → verdict out b 0 s.index ≡ record { reply = reply; may_follow = true; blamed = blamed }
      → Attempted out r b s
          (fail_over out r true 0 d reply closing (attempts out r 1 1) s.index blamed)
  unfolding fail_over
  fail_over-Attempted draws d reply closing blamed e = elim (Bool-cases (can_retry r)) [
    | inl retry ↦ rw retry (
        alternate-Attempted d reply closing blamed
          (next blamed (pos s.index) (out.chosen_at 0) out.draw) e retry
          (next-Chosen blamed (pos s.index) (out.chosen_at 0) out.draw draws))
    | inr never ↦ rw never (
        once (outgoing out r) (outgoing-Relayed out r) refl (ap (λ v. v.reply) (sym e))
          (inr (inl (can_retry-never r never))))
  ]

  on_error-Attempted :
      ((n : ℕ) → 0 < n → out.draw n < n)
      → (d : Done) → verdict out b 0 s.index ≡ error_verdict out b 0 s.index d.error
      → Attempted out r b s (on_error out r true 0 d (attempts out r 1 1) b s.index)
  unfolding error_verdict
  on_error-Attempted draws d e = elim (Bool-cases (out.client_gone 0)) [
    | inl left ↦
        let e' = rw left at e in
        rw left (
          once (outgoing out r) (outgoing-Relayed out r) refl (ap (λ v. v.reply) (sym e'))
            (inl (ap (λ v. v.may_follow) e')))
    | inr here ↦ rw here (
        fail_over-Attempted draws d (write_upstream_error d.error) 0
          (marked out 0 b s.index d.error)
          (rw here at e ∙ here_verdict-parts out b 0 s.index d.error))
  ]

  on_answer-Attempted :
      ((n : ℕ) → 0 < n → out.draw n < n)
      → (d : Done) (response : Response)
      → verdict out b 0 s.index ≡ answer_verdict out b 0 s.index response
      → Attempted out r b s (on_answer out r true 0 d (attempts out r 1 1) b s.index response)
  unfolding answer_verdict
  on_answer-Attempted draws d response e = elim (Bool-cases (response.status == 407)) [
    | inl refused ↦ rw refused (
        fail_over-Attempted draws d upstream_login_failed 1
          (mark_failure b (out.failed_at 0) (pos s.index)) (rw refused at e))
    | inr served ↦
        let e' =
          rw served at e
          ∙ ap (λ reply. record { reply = reply; may_follow = false; blamed = b })
              (sym (pass_on-handed_on out 0 s.index response)) in
        rw served (
          once (outgoing out r) (outgoing-Relayed out r) refl (ap (λ v. v.reply) (sym e'))
            (inl (ap (λ v. v.may_follow) e')))
  ]

  on_done-Attempted :
      ((n : ℕ) → 0 < n → out.draw n < n)
      → (d : Done) (answer : Option Response)
      → verdict out b 0 s.index ≡ verdict_of out b 0 s.index d answer
      → Attempted out r b s (on_done out r true 0 d (attempts out r 1 1) b s.index answer)
  unfolding verdict_of
  on_done-Attempted draws d none e = on_error-Attempted draws d e
  on_done-Attempted draws d (some response) e = on_answer-Attempted draws d response e

  -- forwardRequest refuses exactly the destinations that are not an http or https URL with a host,
  -- and sends nothing for them. For any other it asks at most two upstreams, and each is sent the
  -- client's request but for four things: its URL has the scheme and host of the destination, its
  -- Host is that host, its RequestURI is empty, and its header is the client's less X-Forwarded-For
  -- and the fields that concern one connection. The first answer or error is the client's unless it
  -- is a failure, the request is a GET or HEAD without a body, and some other upstream is not cooling
  -- down; then that one is asked, and its answer or error is the client's. An answer is handed on
  -- less the fields that concern one connection, and the handler panics with http.ErrAbortHandler
  -- where its body is not copied to the end. It relies on draws of the random source below their
  -- bound.
  pub forward_request-Forwards :
      ((n : ℕ) → 0 < n → out.draw n < n) → Forwards out r b s (forward_request out b r s)
  unfolding forward_request attempts
  forward_request-Forwards draws = elim (Bool-cases (is_bad_target out (target_of r))) [
    | inl bad ↦ rw bad (
        turned_down (outgoing out r) (outgoing-Relayed out r).destination
          (is_bad_target-never out r bad) refl refl refl)
    | inr good ↦
        let d = do_http_request (out.timer_first 0 s.index) (out.did 0 s.index) in
        rw good (
          let_through (outgoing out r) (outgoing-Relayed out r).destination
            (is_bad_target-Servable out r good)
            (on_done-Attempted draws d d.answer (verdict-verdict_of out b 0 s.index)))
  ]
