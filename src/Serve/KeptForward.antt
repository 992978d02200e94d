-- ===== src/Serve/KeptForward.antt =====
-- internal/proxy/http.go: the balancer behind forwardRequest, and the upstreams that it asks.
use go_proxy_mux.Prelude.{
  ℕ, zero, suc, ◌<◌, Bool, Bool-cases, inl, inr, Option, none, some, ◌==◌, ◌&&◌,
}
use go_proxy_mux.Prelude.Int.{pos}
use go_proxy_mux.Balancer.{Balancer, Selection, next, mark_failure}
use go_proxy_mux.Forward.{
  Surroundings, Request, Response, Done, Error, Reply, Forwarded, deadline_exceeded, unsupported,
  failed, upstream_login_failed, is_bad_target, target_of, can_retry, outgoing, do_http_request,
  write_upstream_error, marked, alternate, fail_over, on_done, is_first, attempts, forward_request,
}
use go_proxy_mux.Serve.{sent_to}
use go_proxy_mux.Serve.Sound.{
  Sound, Kept, ChosenBelow, IsBounded, next-Sound, mark_failure-Sound, mark_success-Sound,
}

module _ (size : ℕ) (out : Surroundings) (r : Request) (bounded : IsBounded out.draw) where
  KeptBy : Forwarded → Type 0
  KeptBy t = Kept size t.balancer (sent_to t.sent)

  KeepsOn : (Balancer → Selection → Forwarded) → Type 0
  KeepsOn again =
      (b : Balancer) (s : Selection) → Sound size b → s.index < size → KeptBy (again b s)

  alternate-KeptBy :
      (m : Request) (d : Done) (reply : Reply) (i closing : ℕ)
      (again : Balancer → Selection → Forwarded) (found : Balancer × Option Selection)
      → KeepsOn again
      → i < size
      → Sound size found.0 × ChosenBelow size found.1
      → KeptBy (alternate m d reply i closing again found)
  unfolding KeptBy KeepsOn
  alternate-KeptBy m d reply i closing again (b, none) h below (v, c) = record {
    sound = v;
    within = (below, tt);
  }
  alternate-KeptBy m d reply i closing again (b, some other) h below (v, c) =
      let k = h b other v c in record { sound = k.sound; within = (below, k.within) }

  fail_over-KeptBy :
      (first : Bool) (n : ℕ) (d : Done) (reply : Reply) (closing : ℕ)
      (again : Balancer → Selection → Forwarded) (i : ℕ) (b : Balancer)
      → KeepsOn again
      → i < size
      → Sound size b
      → KeptBy (fail_over out r first n d reply closing again i b)
  unfolding fail_over KeptBy
  fail_over-KeptBy first n d reply closing again i b h below v =
      elim (Bool-cases (can_retry r && first)) [
        | inl retry ↦ rw retry (
            alternate-KeptBy (outgoing out r) d reply i closing again
              (next b (pos i) (out.chosen_at n) out.draw) h below
              (next-Sound size b (pos i) (out.chosen_at n) out.draw bounded v))
        | inr last ↦ rw last (record { sound = v; within = (below, tt) })
      ]

  marked-Sound :
      (n : ℕ) (b : Balancer) (i : ℕ) (e : Error) → Sound size b → Sound size (marked out n b i e)
  unfolding marked
  marked-Sound n b i unsupported v = v
  marked-Sound n b i failed v = mark_failure-Sound size b (out.failed_at n) (pos i) v
  marked-Sound n b i deadline_exceeded v = mark_failure-Sound size b (out.failed_at n) (pos i) v

  on_done-KeptBy :
      (first : Bool) (n : ℕ) (d : Done) (again : Balancer → Selection → Forwarded) (b : Balancer)
      (i : ℕ) (answer : Option Response)
      → KeepsOn again
      → i < size
      → Sound size b
      → KeptBy (on_done out r first n d again b i answer)
  unfolding KeptBy
  on_done-KeptBy first n d again b i none h below v = elim (Bool-cases (out.client_gone n)) [
    | inl left ↦ rw left (record { sound = v; within = (below, tt) })
    | inr here ↦ rw here (
        fail_over-KeptBy first n d (write_upstream_error d.error) 0 again i
          (marked out n b i d.error) h below (marked-Sound n b i d.error v))
  ]
  on_done-KeptBy first n d again b i (some response) h below v =
      elim (Bool-cases (response.status == 407)) [
        | inl refused ↦ rw refused (
            fail_over-KeptBy first n d upstream_login_failed 1 again i
              (mark_failure b (out.failed_at n) (pos i)) h below
              (mark_failure-Sound size b (out.failed_at n) (pos i) v))
        | inr served ↦
            rw served (record { sound = mark_success-Sound size b (pos i) v; within = (below, tt) })
      ]

  attempts-KeptBy :
      (rounds n : ℕ) (b : Balancer) (s : Selection)
      → Sound size b
      → s.index < size
      → KeptBy (attempts out r rounds n b s)
  unfolding attempts KeptBy KeepsOn
  attempts-KeptBy zero n b s v below = record { sound = v; within = tt }
  attempts-KeptBy (suc rounds) n b s v below =
      let d = do_http_request (out.timer_first n s.index) (out.did n s.index) in
      on_done-KeptBy (is_first n) n d (attempts out r rounds (suc n)) b s.index d.answer
        (λ b' s' v' below'. attempts-KeptBy rounds (suc n) b' s' v' below') below v

  pub forward_request-Kept :
      (b : Balancer) (s : Selection)
      → Sound size b
      → s.index < size
      → let t = forward_request out b r s in Kept size t.balancer (sent_to t.sent)
  unfolding forward_request KeptBy
  forward_request-Kept b s v below = elim (Bool-cases (is_bad_target out (target_of r))) [
    | inl bad ↦ rw bad (record { sound = v; within = tt })
    | inr good ↦ rw good (attempts-KeptBy 2 0 b s v below)
  ]
