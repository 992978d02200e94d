-- ===== src/Serve/KeptConnect.antt =====
-- internal/proxy/connect.go: the balancer behind handleConnect, and the upstreams that it dials.
use go_proxy_mux.Prelude.{ℕ, zero, suc, ◌<◌, Option, none, some}
use go_proxy_mux.Prelude.Int.{pos}
use go_proxy_mux.Balancer.{Balancer, Selection, next, mark_failure}
use go_proxy_mux.Limits.{Limiter, Lease, try_acquire}
use go_proxy_mux.Limits.Accept.{address_host}
use go_proxy_mux.Connect.{
  Surroundings, Request, Reply, Tried, Setup, established, cancelled, unsupported, failed, Handled,
  alternate, fail_over, react, attempts, with_lease, unless_refused, handle_connect, check_request,
}
use go_proxy_mux.Serve.Sound.{
  Sound, Kept, ChosenBelow, IsBounded, next-Sound, mark_failure-Sound, mark_success-Sound,
}

module _ (size : ℕ) (out : Surroundings) (bounded : IsBounded out.draw) where
  KeptBy : Tried → Type 0
  KeptBy t = Kept size t.balancer t.dialed

  KeepsOn : (Balancer → Selection → Tried) → Type 0
  KeepsOn again =
      (b : Balancer) (s : Selection) → Sound size b → s.index < size → KeptBy (again b s)

  alternate-KeptBy :
      (i : ℕ) (again : Balancer → Selection → Tried) (found : Balancer × Option Selection)
      → KeepsOn again
      → i < size
      → Sound size found.0 × ChosenBelow size found.1
      → KeptBy (alternate i again found)
  unfolding KeptBy KeepsOn
  alternate-KeptBy i again (b, none) h below (v, c) = record { sound = v; within = (below, tt) }
  alternate-KeptBy i again (b, some other) h below (v, c) =
      let k = h b other v c in record { sound = k.sound; within = (below, k.within) }

  fail_over-KeptBy :
      (n : ℕ) (again : Balancer → Selection → Tried) (i : ℕ) (b : Balancer)
      → KeepsOn again
      → i < size
      → Sound size b
      → KeptBy (fail_over out n again i b)
  unfolding fail_over KeptBy
  fail_over-KeptBy zero again i b h below v =
      alternate-KeptBy i again (next b (pos i) (out.chosen_at zero) out.draw) h below
        (next-Sound size b (pos i) (out.chosen_at zero) out.draw bounded v)
  fail_over-KeptBy (suc n) again i b h below v = record { sound = v; within = (below, tt) }

  react-KeptBy :
      (n : ℕ) (again : Balancer → Selection → Tried) (b : Balancer) (i : ℕ) (setup : Setup)
      → KeepsOn again
      → i < size
      → Sound size b
      → KeptBy (react out n again b i setup)
  unfolding react KeptBy
  react-KeptBy n again b i established h below v = record {
    sound = mark_success-Sound size b (pos i) v;
    within = (below, tt);
  }
  react-KeptBy n again b i cancelled h below v = record { sound = v; within = (below, tt) }
  react-KeptBy n again b i unsupported h below v = fail_over-KeptBy n again i b h below v
  react-KeptBy n again b i failed h below v =
      fail_over-KeptBy n again i (mark_failure b (out.failed_at n) (pos i)) h below
        (mark_failure-Sound size b (out.failed_at n) (pos i) v)

  attempts-KeptBy :
      (rounds n : ℕ) (b : Balancer) (s : Selection)
      → Sound size b
      → s.index < size
      → KeptBy (attempts out rounds n b s)
  unfolding attempts KeptBy KeepsOn
  attempts-KeptBy zero n b s v below = record { sound = v; within = tt }
  attempts-KeptBy (suc rounds) n b s v below =
      react-KeptBy n (attempts out rounds (suc n)) b s.index (out.setup n s.index)
        (λ b' s' v' below'. attempts-KeptBy rounds (suc n) b' s' v' below') below v

  with_lease-KeptBy :
      (b : Balancer) (s : Selection) (acquired : Limiter × Option Lease)
      → Sound size b
      → s.index < size
      → KeptBy (with_lease out b s acquired).tried
  unfolding KeptBy
  with_lease-KeptBy b s (l, none) v below = record { sound = v; within = tt }
  with_lease-KeptBy b s (l, some lease) v below = attempts-KeptBy 2 0 b s v below

  unless_refused-KeptBy :
      (l : Limiter) (b : Balancer) (refusal : Option Reply) (h : Handled)
      → Sound size b
      → KeptBy h.tried
      → KeptBy (unless_refused l b refusal h).tried
  unfolding KeptBy
  unless_refused-KeptBy l b none h v k = k
  unless_refused-KeptBy l b (some reply) h v k = record { sound = v; within = tt }

  pub handle_connect-Kept :
      (l : Limiter) (b : Balancer) (r : Request) (s : Selection)
      → Sound size b
      → s.index < size
      → let t = (handle_connect out l b r s).tried in Kept size t.balancer t.dialed
  unfolding handle_connect KeptBy
  handle_connect-Kept l b r s v below =
      unless_refused-KeptBy l b (check_request out r)
        (with_lease out b s (try_acquire l (address_host r.remote_addr))) v
        (with_lease-KeptBy b s (try_acquire l (address_host r.remote_addr)) v below)
