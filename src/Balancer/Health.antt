-- ===== src/Balancer/Health.antt =====
-- internal/balancer/balancer.go: MarkFailure and MarkSuccess, and what holds after any calls.
use go_proxy_mux.Prelude.{
  ℕ, ◌<◌, ◌≡◌, refl, Bool, Bool-cases, none, some, if◌then◌else◌, ◌==◌, ==_iff, ◌≢◌, ◌⊎◌, inl, inr,
  List, [], ◌∷◌, arith, length, set, get_or, length-set, length-replicate, get_or-set_self,
  get_or-set_ne,
}
use native.Mathlib.Nat.{mod-lt}
use go_proxy_mux.Prelude.Bytes.{codes, str_eq}
use native.Mathlib.Decide.{ℕ_discrete}
use go_proxy_mux.Prelude.Int.{ℤ, pos, pos_part, ◌+ℤ◌, ◌≤ℤ◌, ◌<ℤ◌}
use go_proxy_mux.Config.{UpstreamConfig, ProxyConfig}
use go_proxy_mux.Balancer.{
  Selection, Balancer, new, next, choose, mark_failure, mark_success, IsValid,
}
use go_proxy_mux.Balancer.Select.{Chosen, next-Chosen, next_serves}

get_or-set :
    (xs : List ℤ) (i j : ℕ) (v d : ℤ)
    → i < length xs
    → get_or (set xs i v) j d ≡ (if j == i then v else get_or xs j d)
get_or-set xs i j v d h = elim (ℕ_discrete i j) [
  | yes e ↦ rw (← e, (==_iff i i).1 refl) (get_or-set_self xs i v d h)
  | no other ↦ ground (arith, get_or-set_ne xs i j v d other)
]

-- A failure of upstream `i` at `now` puts its deadline at the end of the cooldown, and changes no
-- other deadline; a success puts it back to the zero time, and changes no other.
pub deadline-mark :
    (b : Balancer) (now : ℤ) (i j : ℕ)
    → IsValid b
    → i < length b.upstreams
    → (get_or (mark_failure b now (pos i)).unhealthy_until j (pos 0)
        ≡ (if j == i then now +ℤ b.cooldown else get_or b.unhealthy_until j (pos 0)))
      × (get_or (mark_success b (pos i)).unhealthy_until j (pos 0)
          ≡ (if j == i then pos 0 else get_or b.unhealthy_until j (pos 0)))
unfolding mark_failure mark_success
deadline-mark b now i j v h =
    let bound : i < length b.unhealthy_until = omega arith in
    ground (
      arith,
      get_or-set b.unhealthy_until i j (now +ℤ b.cooldown) (pos 0) bound,
      get_or-set b.unhealthy_until i j (pos 0) (pos 0) bound,
    )

-- An index outside the list, a negative one included, is ignored by both.
pub mark_out_of_range :
    (b : Balancer) (now index : ℤ)
    → (index <ℤ pos 0) ⊎ (pos (length b.upstreams) ≤ℤ index)
    → (mark_failure b now index ≡ b) × (mark_success b index ≡ b)
unfolding mark_failure mark_success
mark_out_of_range b now index h = ground arith

pub upstreams-mark_failure :
    (b : Balancer) (now index : ℤ) → (mark_failure b now index).upstreams ≡ b.upstreams
unfolding mark_failure
upstreams-mark_failure b now index = ground arith

pub upstreams-mark_success :
    (b : Balancer) (index : ℤ) → (mark_success b index).upstreams ≡ b.upstreams
unfolding mark_success
upstreams-mark_success b index = ground arith

-- Until its cooldown is over `Next` does not choose an upstream that failed.
pub failure_excludes :
    (b b' : Balancer) (now exclude later : ℤ) (i : ℕ) (draw : ℕ → ℕ) (s : Selection)
    → ((n : ℕ) → 0 < n → draw n < n)
    → IsValid b
    → i < length b.upstreams
    → later <ℤ now +ℤ b.cooldown
    → next (mark_failure b now (pos i)) exclude later draw ≡ (b', some s)
    → s.index ≢ i
failure_excludes b b' now exclude later i draw s d v h early e same =
    let c = mark_failure b now (pos i) in
    let chosen : Chosen c exclude later (b', some s) =
      rw e at (next-Chosen c exclude later draw d) in
    let over : get_or c.unhealthy_until s.index (pos 0) ≤ℤ later = chosen.0.1 in
    let deadline = (deadline-mark b now i s.index v h).0 in ground arith

usable_again :
    (b c : Balancer) (deadline exclude later : ℤ) (i : ℕ) (draw : ℕ → ℕ)
    → ((n : ℕ) → 0 < n → draw n < n)
    → c.upstreams ≡ b.upstreams
    → i < length b.upstreams
    → get_or c.unhealthy_until i (pos 0) ≡ deadline
    → pos i ≢ exclude
    → deadline ≤ℤ later
    → (next c exclude later draw).1 ≢ none
usable_again b c deadline exclude later i draw d same h e other over =
    next_serves c exclude later i draw d (rw same h) (other, rw e over)

-- Once its cooldown is over, and at once after a success, an upstream keeps `Next` from failing,
-- unless it is the excluded one.
pub recovery_serves :
    (b : Balancer) (now exclude later : ℤ) (i : ℕ) (draw : ℕ → ℕ)
    → ((n : ℕ) → 0 < n → draw n < n)
    → IsValid b
    → i < length b.upstreams
    → pos i ≢ exclude
    → pos 0 ≤ℤ later
    → (now +ℤ b.cooldown ≤ℤ later → (next (mark_failure b now (pos i)) exclude later draw).1 ≢ none)
      × ((next (mark_success b (pos i)) exclude later draw).1 ≢ none)
recovery_serves b now exclude later i draw d v h other clock =
    let (failed, cleared) = deadline-mark b now i i v h in
    let here = (==_iff i i).1 refl in
    (
      λ over.
          usable_again b (mark_failure b now (pos i)) (now +ℤ b.cooldown) exclude later i draw d
            (upstreams-mark_failure b now (pos i)) h (rw here at failed) other over,
      usable_again b (mark_success b (pos i)) (pos 0) exclude later i draw d
          (upstreams-mark_success b (pos i)) h (rw here at cleared) other clock,
    )

-- The calls that a server makes, with what the clock and the random source gave.
pub data Call : Type 0 where
  nexts : ℤ → ℤ → (ℕ → ℕ) → Call
  fails : ℤ → ℤ → Call
  succeeds : ℤ → Call

unfoldable pub step : Balancer → Call → Balancer
step b (nexts exclude now draw) = (next b exclude now draw).0
step b (fails now index) = mark_failure b now index
step b (succeeds index) = mark_success b index

pub run : Balancer → List Call → Balancer
run b [] = b
run b (c ∷ cs) = run (step b c) cs

choose-IsValid :
    (b : Balancer) (test : ℕ → Bool) (draw : ℕ → ℕ) (xs : List ℕ)
    → IsValid b
    → IsValid (choose b test draw xs).0
unfolding choose
choose-IsValid b test draw [] v = v
choose-IsValid b test draw (first ∷ rest) v =
    elim (Bool-cases (str_eq b.algorithm (codes "random"))) [
      | inl random ↦ rw (random, choose) v
      | inr robin ↦ rw (robin, choose) (record { parallel = v.parallel; cursor = λ h. mod-lt _ h })
    ]

pub step-IsValid : (b : Balancer) (c : Call) → IsValid b → IsValid (step b c)
unfolding step next mark_failure mark_success
step-IsValid b (nexts exclude now draw) v = choose-IsValid b _ draw _ v
step-IsValid b (fails now index) v =
    ground (arith, length-set b.unhealthy_until (pos_part index) (now +ℤ b.cooldown))
step-IsValid b (succeeds index) v =
    ground (arith, length-set b.unhealthy_until (pos_part index) (pos 0))

run-IsValid : (b : Balancer) (cs : List Call) → IsValid b → IsValid (run b cs)
unfolding run
run-IsValid b [] v = v
run-IsValid b (c ∷ cs) v = run-IsValid (step b c) cs (step-IsValid b c v)

pub new-IsValid :
    (cfg : ProxyConfig) (upstreams : List UpstreamConfig) → IsValid (new cfg upstreams)
unfolding new
new-IsValid cfg upstreams = record {
  parallel = length-replicate (length upstreams) (pos 0);
  cursor = λ h. h;
}

-- After any calls on a new balancer each upstream has its deadline, and the cursor stands on an
-- upstream if there is one.
pub run-new-IsValid :
    (cfg : ProxyConfig) (upstreams : List UpstreamConfig) (cs : List Call)
    → IsValid (run (new cfg upstreams) cs)
run-new-IsValid cfg upstreams cs = run-IsValid _ cs (new-IsValid cfg upstreams)
