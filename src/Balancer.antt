-- ===== src/Balancer.antt =====
-- internal/balancer/balancer.go: the choice of an upstream and its cooldown. The mutex makes each
-- method one step on the state; the clock's reading and the random draw are arguments. A time is
-- the number of nanoseconds since Go's zero Time, so `time.Time{}` is `pos 0`.
pub mod Select
pub mod RoundRobin
pub mod Health
mod Tests
use go_proxy_mux.Prelude.{
  ℕ, zero, suc, ◌+◌, ◌%◌, ◌<◌, ◌≡◌, Bool, not, ◌&&◌, List, [], ◌∷◌, Option, none, some, length,
  get_or, set, replicate, if◌then◌else◌,
}
use go_proxy_mux.Prelude.Int.{ℤ, pos, negsuc, pos_part, ◌+ℤ◌, ltb_ℤ, leb_ℤ, eqb_ℤ}
use go_proxy_mux.Prelude.Bytes.{Bytes, codes, str_eq}
use go_proxy_mux.Config.{UpstreamConfig, ProxyConfig, no_upstream}

pub record Selection : Type 0 where
  pub index : ℕ
  pub upstream : UpstreamConfig

pub record Balancer : Type 0 where
  pub upstreams : List UpstreamConfig
  pub unhealthy_until : List ℤ
  pub algorithm : Bytes
  pub cooldown : ℤ
  pub current : ℕ

unfoldable pub new : ProxyConfig → List UpstreamConfig → Balancer
new cfg upstreams = record {
  upstreams = upstreams;
  unhealthy_until = replicate (length upstreams) (pos 0);
  algorithm = cfg.algorithm;
  cooldown = cfg.failover_cooldown;
  current = 0;
}

-- `!now.Before(b.unhealthyUntil[i])`.
abbrev pub healthy : Balancer → ℤ → ℕ → Bool
healthy b now i = not (ltb_ℤ now (get_or b.unhealthy_until i (pos 0)))

-- The test of both loops of `Next`: not excluded, and its cooldown is over.
unfoldable pub usable : Balancer → ℤ → ℤ → ℕ → Bool
usable b exclude now i = not (eqb_ℤ (pos i) exclude) && healthy b now i

-- The first loop of `Next`: the indices from `i` on that pass the test, `rounds` of them tried.
unfoldable pub available : (ℕ → Bool) → ℕ → ℕ → List ℕ
available test zero i = []
available test (suc rounds) i =
    let rest = available test rounds (suc i) in if test i then i ∷ rest else rest

-- The second loop: from `current` on, round the list, the first candidate that passes the test;
-- `index` is kept when none does.
unfoldable pub rotate : (ℕ → Bool) → ℕ → ℕ → ℕ → ℕ → ℕ → ℕ
rotate test current size index zero offset = index
rotate test current size index (suc rounds) offset =
    let candidate = (current + offset) % size in
    let rest = rotate test current size index rounds (suc offset) in
    if test candidate then candidate else rest

abbrev pub select : Balancer → ℕ → Selection
select b i = record { index = i; upstream = get_or b.upstreams i no_upstream }

-- `Next` once `available` is known; `draw n` is what `b.random.Intn(n)` returns.
choose : Balancer → (ℕ → Bool) → (ℕ → ℕ) → List ℕ → Balancer × Option Selection
choose b test draw [] = (b, none)
choose b test draw (first ∷ rest) =
    let size = length b.upstreams in
    let index = rotate test b.current size first size 0 in
    if str_eq b.algorithm (codes "random")
    then (b, some (select b (get_or (first ∷ rest) (draw (length (first ∷ rest))) first)))
    else (record b { current = (index + 1) % size }, some (select b index))

unfoldable pub next : Balancer → ℤ → ℤ → (ℕ → ℕ) → Balancer × Option Selection
unfolding choose
next b exclude now draw =
    let test = usable b exclude now in choose b test draw (available test (length b.upstreams) 0)

-- `index >= 0 && index < len(b.upstreams)`.
in_range : Balancer → ℤ → Bool
in_range b index = leb_ℤ (pos 0) index && ltb_ℤ index (pos (length b.upstreams))

unfoldable pub mark_failure : Balancer → ℤ → ℤ → Balancer
unfolding in_range
mark_failure b now index =
    if in_range b index
    then record b { unhealthy_until = set b.unhealthy_until (pos_part index) (now +ℤ b.cooldown) }
    else b

unfoldable pub mark_success : Balancer → ℤ → Balancer
unfolding in_range
mark_success b index =
    if in_range b index
    then record b { unhealthy_until = set b.unhealthy_until (pos_part index) (pos 0) }
    else b

-- Each upstream has a deadline, and the cursor stands on an upstream if there is one.
pub record IsValid (b : Balancer) : Type 0 where
  pub parallel : length b.unhealthy_until ≡ length b.upstreams
  pub cursor : 0 < length b.upstreams → b.current < length b.upstreams
