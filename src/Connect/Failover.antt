-- ===== src/Connect/Failover.antt =====
-- internal/proxy/connect.go: which upstreams handleConnect tries, and what the client is answered.
use go_proxy_mux.Prelude.{ℕ, ◌<◌, ◌≡◌, refl, ap, ◌⊎◌, inl, inr, [], ◌∷◌, Option, none, some}
use go_proxy_mux.Prelude.Int.{pos}
use go_proxy_mux.Balancer.{Balancer, Selection, next, mark_failure}
use go_proxy_mux.Balancer.Select.{Chosen, next-Chosen}
use go_proxy_mux.Connect.{
  Surroundings, Reply, upstream_error, relayed, gone, Setup, established, cancelled, unsupported,
  failed, Tried, alternate, fail_over, react, attempts,
}

-- The answer that a last attempt leads to.
abbrev pub reply_of : Setup → Reply
reply_of established = relayed
reply_of cancelled = gone
reply_of unsupported = upstream_error
reply_of failed = upstream_error

-- The balancer behind a first attempt that failed: an upstream that cannot represent the target
-- is not to blame.
abbrev pub blamed : Surroundings → Balancer → ℕ → Setup → Balancer
blamed out b i failed = mark_failure b (out.failed_at 0) (pos i)
blamed out b i _ = b

pub data Failing : Setup → Type 0 where
  by_target : Failing unsupported
  by_upstream : Failing failed

-- What the attempts come to. The first is of the selected upstream. When it fails there is a
-- second, of another upstream that is not cooling down, if the balancer has one.
pub data FailsOver (out : Surroundings) (b : Balancer) (s : Selection) (t : Tried) : Type 0 where
  first_decides :
      t.dialed ≡ s.index ∷ []
      → t.reply ≡ reply_of (out.setup 0 s.index)
      → (out.setup 0 s.index ≡ established) ⊎ (out.setup 0 s.index ≡ cancelled)
      → FailsOver out b s t
  no_other :
      Failing (out.setup 0 s.index)
      → t.dialed ≡ s.index ∷ []
      → t.reply ≡ upstream_error
      → Chosen
          (blamed out b s.index (out.setup 0 s.index))
          (pos s.index)
          (out.chosen_at 0)
          (t.balancer, none)
      → FailsOver out b s t
  second_decides :
      (b' : Balancer) (other : Selection)
      → Failing (out.setup 0 s.index)
      → t.dialed ≡ s.index ∷ other.index ∷ []
      → t.reply ≡ reply_of (out.setup 1 other.index)
      → Chosen
          (blamed out b s.index (out.setup 0 s.index))
          (pos s.index)
          (out.chosen_at 0)
          (b', some other)
      → FailsOver out b s t

second :
    (out : Surroundings) (again : Balancer → Selection → Tried) (b : Balancer) (j : ℕ)
    (setup : Setup)
    → ((react out 1 again b j setup).dialed ≡ j ∷ [])
      × ((react out 1 again b j setup).reply ≡ reply_of setup)
unfolding react fail_over
second out again b j established = (refl, refl)
second out again b j cancelled = (refl, refl)
second out again b j unsupported = (refl, refl)
second out again b j failed = (refl, refl)

alternate-FailsOver :
    (out : Surroundings) (b : Balancer) (s : Selection) (r : Balancer × Option Selection)
    → Failing (out.setup 0 s.index)
    → Chosen (blamed out b s.index (out.setup 0 s.index)) (pos s.index) (out.chosen_at 0) r
    → FailsOver out b s (alternate s.index (attempts out 1 1) r)
unfolding attempts
alternate-FailsOver out b s (b', none) f c = no_other f refl refl c
alternate-FailsOver out b s (b', some other) f c =
    let (dialed, reply) = second out (attempts out 0 2) b' other.index (out.setup 1 other.index) in
    second_decides b' other f (ap (λ js. s.index ∷ js) dialed) reply c

first-FailsOver :
    (out : Surroundings) (b : Balancer) (s : Selection)
    → ((n : ℕ) → 0 < n → out.draw n < n)
    → (setup : Setup) → out.setup 0 s.index ≡ setup
    → FailsOver out b s (react out 0 (attempts out 1 1) b s.index setup)
unfolding react fail_over
first-FailsOver out b s d established e = first_decides refl (rw e) (inl e)
first-FailsOver out b s d cancelled e = first_decides refl (rw e) (inr e)
first-FailsOver out b s d unsupported e =
    alternate-FailsOver out b s (next b (pos s.index) (out.chosen_at 0) out.draw) (rw e by_target)
      (rw e (next-Chosen b (pos s.index) (out.chosen_at 0) out.draw d))
first-FailsOver out b s d failed e =
    alternate-FailsOver out b s
      (next (mark_failure b (out.failed_at 0) (pos s.index)) (pos s.index) (out.chosen_at 0)
        out.draw)
      (rw e by_upstream)
      (rw e (
        next-Chosen (mark_failure b (out.failed_at 0) (pos s.index)) (pos s.index) (out.chosen_at 0)
          out.draw d))

-- handleConnect dials at most two upstreams. The first is the selected one, and it alone decides
-- when it gives a tunnel or the client has gone. When it fails, and is charged for that unless the
-- target is what it cannot represent, the second is another upstream that is not cooling down, and
-- it alone decides; with no such upstream the client has the error, and every other upstream is
-- cooling down. It relies on draws of the random source below their bound.
pub attempts-FailsOver :
    (out : Surroundings) (b : Balancer) (s : Selection)
    → ((n : ℕ) → 0 < n → out.draw n < n)
    → FailsOver out b s (attempts out 2 0 b s)
unfolding attempts
attempts-FailsOver out b s d = first-FailsOver out b s d (out.setup 0 s.index) refl
