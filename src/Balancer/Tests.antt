-- ===== src/Balancer/Tests.antt =====
-- internal/balancer/balancer.go: runs on concrete balancers, and the theorems at them.
use go_proxy_mux.Prelude.{
  ℕ, ◌+◌, ◌-◌, get_or-replicate, ◌%◌, ◌<◌, ◌≡◌, refl, ◌≢◌, [], ◌∷◌, none, some, arith, get_or,
  get_elem?,
}
use go_proxy_mux.Prelude.Int.{pos, negsuc, ◌+ℤ◌, ◌≤ℤ◌}
use go_proxy_mux.Prelude.Bytes.{codes, str_eq}
use go_proxy_mux.Config.{UpstreamConfig, no_upstream, default_config}
use go_proxy_mux.Balancer.{
  Balancer, usable, available, rotate, new, next, mark_failure, mark_success, IsValid, select,
}
use go_proxy_mux.Balancer.Select.{IsUsable, Chosen, next-Chosen, next_serves}
use go_proxy_mux.Balancer.RoundRobin.{next_round_robin, choices, choices_cycle}
use go_proxy_mux.Balancer.Health.{recovery_serves, nexts, fails, succeeds, run, run-new-IsValid}

abbrev upstream : ℕ → UpstreamConfig
upstream port = record no_upstream { url = port ∷ [] }

-- Three upstreams under round robin; the second cools down until 100.
abbrev three : Balancer
three = record {
  upstreams = upstream 1 ∷ upstream 2 ∷ upstream 3 ∷ [];
  unhealthy_until = pos 0 ∷ pos 100 ∷ pos 0 ∷ [];
  algorithm = codes "roundrobin";
  cooldown = pos 30;
  current = 1;
}

abbrev healthy_three : Balancer
healthy_three = record three { unhealthy_until = pos 0 ∷ pos 0 ∷ pos 0 ∷ [] }

abbrev first_draw : ℕ → ℕ
first_draw n = 0

-- The second is skipped; with the third excluded too the first is chosen.
test_skips :
    next three (negsuc 0) (pos 50) first_draw
    ≡ (record three { current = 0 }, some (select three 2))
unfolding next available rotate usable str_eq
test_skips = refl

test_excludes : (next three (pos 2) (pos 50) first_draw).1 ≡ some (select three 0)
unfolding next available rotate usable str_eq
test_excludes = refl

test_random :
    next (record three { algorithm = codes "random" }) (negsuc 0) (pos 50) (λ n. n - 1)
    ≡ (record three { algorithm = codes "random" }, some (select three 2))
unfolding next available rotate usable str_eq
test_random = refl

three-IsValid : IsValid three
three-IsValid = record { parallel = refl; cursor = λ h. omega arith }

next-Chosen_example : Chosen three (pos 0) (pos 50) (next three (pos 0) (pos 50) first_draw)
next-Chosen_example = next-Chosen three (pos 0) (pos 50) first_draw (λ n h. h)

next_serves_example : (next three (pos 0) (pos 50) first_draw).1 ≢ none
next_serves_example =
    next_serves three (pos 0) (pos 50) 2 first_draw (λ n h. h) (omega arith)
      ((λ e. ground arith), omega arith)

next_round_robin_example :
    (o : ℕ) × (o < 3)
    × (2 ≡ (1 + o) % 3)
    × ((k : ℕ) → k < o → ¬ IsUsable three (negsuc 0) (pos 50) ((1 + k) % 3))
    × IsUsable three (negsuc 0) (pos 50) 2
    × (0 ≡ (2 + 1) % 3)
unfolding next available rotate usable str_eq
next_round_robin_example =
    next_round_robin three (negsuc 0) (pos 50) first_draw (record three { current = 0 })
      (select three 2) refl refl

choices_cycle_example :
    get_elem? (choices healthy_three first_draw (pos 1 ∷ pos 2 ∷ pos 3 ∷ [])) 2
    ≡ some (some (select healthy_three 0))
unfolding str_eq
choices_cycle_example =
    choices_cycle healthy_three first_draw (pos 1 ∷ pos 2 ∷ pos 3 ∷ []) 2 refl (omega arith)
      (all_zero 1, (all_zero 2, (all_zero 3, tt))) (omega arith)
  where
    all_zero : (now i : ℕ) → i < 3 → get_or healthy_three.unhealthy_until i (pos 0) ≤ℤ pos now
    all_zero now i h = let zero_time = get_or-replicate 3 i (pos 0) in rw zero_time (omega arith)

recovery_serves_example :
    (pos 7 +ℤ pos 30 ≤ℤ pos 40
      → (next (mark_failure three (pos 7) (pos 1)) (pos 0) (pos 40) first_draw).1 ≢ none)
    × ((next (mark_success three (pos 1)) (pos 0) (pos 40) first_draw).1 ≢ none)
recovery_serves_example =
    recovery_serves three (pos 7) (pos 0) (pos 40) 1 first_draw (λ n h. h) three-IsValid
      (omega arith) (λ e. ground arith) (omega arith)

run-new-IsValid_example : IsValid (
    run
      (new default_config.proxy (upstream 1 ∷ upstream 2 ∷ []))
      (fails (pos 5) (pos 0) ∷ nexts (negsuc 0) (pos 6) first_draw ∷ succeeds (pos 0) ∷ []))
run-new-IsValid_example =
    run-new-IsValid default_config.proxy (upstream 1 ∷ upstream 2 ∷ [])
      (fails (pos 5) (pos 0) ∷ nexts (negsuc 0) (pos 6) first_draw ∷ succeeds (pos 0) ∷ [])
