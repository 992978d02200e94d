-- ===== src/Balancer/Select.antt =====
-- internal/balancer/balancer.go, Next: which upstream it may choose, and when it chooses none.
use go_proxy_mux.Prelude.{
  ℕ, zero, suc, ◌+◌, ◌%◌, ◌≤◌, ◌<◌, ◌≡◌, refl, subst, ◌≢◌, ◌⊎◌, inl, inr, Bool, true, false, List,
  [], ◌∷◌, Option, none, some, arith, ◌==◌, length, get_or, get_elem?, All, All-get_or,
  get_elem?-get_or, Bool-cases,
}
use native.Mathlib.Nat.{mod-lt, zero-add}
use go_proxy_mux.Prelude.Int.{ℤ, pos, ◌≤ℤ◌, ◌<ℤ◌, eqb_ℤ_iff}
use go_proxy_mux.Prelude.Bytes.{codes, str_eq}
use go_proxy_mux.Config.{no_upstream}
use go_proxy_mux.Balancer.{Selection, Balancer, usable, available, rotate, choose, next, select}

-- The first loop finds nothing only if no index in its range passes the test.
pub available-nil :
    (test : ℕ → Bool) (n i j : ℕ) → available test n i ≡ [] → i ≤ j → j < i + n → test j ≡ false
unfolding available
available-nil test zero i j e h k = absurd (omega arith)
available-nil test (suc n) i j e h k = elim (Bool-cases (i == j)) [
  | inl same ↦ ground arith
  | inr other ↦ ground (arith, available-nil test n (suc i) j)
]

-- An index that the first loop may collect: it is in the range, and it passes.
abbrev Candidate : (ℕ → Bool) → ℕ → ℕ → ℕ → Type 0
Candidate test i bound j = (i ≤ j) × (j < bound) × (test j ≡ true)

Candidate-up :
    (test : ℕ → Bool) (i bound : ℕ) (xs : List ℕ)
    → All (Candidate test (suc i) bound) xs
    → All (Candidate test i bound) xs
Candidate-up test i bound [] a = tt
Candidate-up test i bound (x ∷ xs) a =
    ((omega arith, a.0.1, a.0.2), Candidate-up test i bound xs a.1)

available-All : (test : ℕ → Bool) (n i : ℕ) → All (Candidate test i (i + n)) (available test n i)
unfolding available
available-All test zero i = tt
available-All test (suc n) i =
    let bound : suc i + n ≡ i + suc n = omega arith in
    let rest =
      Candidate-up test i (i + suc n) (available test n (suc i))
        (rw (← bound) (available-All test n (suc i))) in
    elim (Bool-cases (test i)) [
      | inl t ↦ rw t ((omega arith, omega arith, t), rest)
      | inr f ↦ rw f rest
    ]

available-All_zero : (test : ℕ → Bool) (n : ℕ) → All (Candidate test 0 n) (available test n 0)
available-All_zero test n =
    subst (λ bound. All (Candidate test 0 bound) (available test n 0)) (zero-add n)
      (available-All test n 0)

pub available_head :
    (test : ℕ → Bool) (n first : ℕ) (rest : List ℕ)
    → available test n 0 ≡ first ∷ rest
    → (first < n) × (test first ≡ true)
available_head test n first rest e =
    let all : All (Candidate test 0 n) (first ∷ rest) = rw e at (available-All_zero test n) in
    (all.0.1, all.0.2)

-- What the second loop returns is one of the candidates, or what it started from.
pub rotate-Candidate :
    (test : ℕ → Bool) (current size index rounds offset : ℕ)
    → 0 < size
    → Candidate test 0 size index
    → Candidate test 0 size (rotate test current size index rounds offset)
unfolding rotate
rotate-Candidate test current size index zero offset some_room c = c
rotate-Candidate test current size index (suc rounds) offset some_room c =
    let here : (current + offset) % size < size = mod-lt _ some_room in
    ground (arith, rotate-Candidate test current size index rounds (suc offset))

-- What the test means.
abbrev pub IsUsable : Balancer → ℤ → ℤ → ℕ → Type 0
IsUsable b exclude now i = (pos i ≢ exclude) × (get_or b.unhealthy_until i (pos 0) ≤ℤ now)

pub usable-IsUsable :
    (b : Balancer) (exclude now : ℤ) (i : ℕ)
    → usable b exclude now i ≡ true
    → IsUsable b exclude now i
unfolding usable
usable-IsUsable b exclude now i h = (λ e. ground (arith, eqb_ℤ_iff (pos i) exclude), ground arith)

pub IsUsable-usable :
    (b : Balancer) (exclude now : ℤ) (i : ℕ)
    → IsUsable b exclude now i
    → usable b exclude now i ≡ true
unfolding usable
IsUsable-usable b exclude now i (other, over) = ground (arith, eqb_ℤ_iff (pos i) exclude)

pub usable_refuses :
    (b : Balancer) (exclude now : ℤ) (i : ℕ)
    → usable b exclude now i ≡ false
    → (pos i ≡ exclude) ⊎ (now <ℤ get_or b.unhealthy_until i (pos 0))
unfolding usable
usable_refuses b exclude now i h = ground (arith, eqb_ℤ_iff (pos i) exclude)

-- The outcome of `Next`, described without its loops.
abbrev pub Chosen : Balancer → ℤ → ℤ → Balancer × Option Selection → Type 0
Chosen b exclude now (b', none) =
    (b' ≡ b)
    × ((i : ℕ)
        → i < length b.upstreams
        → (pos i ≡ exclude) ⊎ (now <ℤ get_or b.unhealthy_until i (pos 0)))
Chosen b exclude now (b', some s) =
    IsUsable b exclude now s.index
    × (get_elem? b.upstreams s.index ≡ some s.upstream)
    × (b' ≡ record b { current = b'.current })

Chosen-select :
    (b c : Balancer) (exclude now : ℤ) (i : ℕ)
    → Candidate (usable b exclude now) 0 (length b.upstreams) i
    → c ≡ record b { current = c.current }
    → Chosen b exclude now (c, some (select b i))
Chosen-select b c exclude now i (_, bound, test) same =
    (usable-IsUsable b exclude now i test, get_elem?-get_or b.upstreams i no_upstream bound, same)

-- `Next` returns an upstream that stands in the list, is not the excluded one and is not cooling
-- down, whatever the algorithm and the draw; it returns none only if every upstream is the excluded
-- one or is cooling down; and it changes nothing of the balancer but its cursor.
pub next-Chosen :
    (b : Balancer) (exclude now : ℤ) (draw : ℕ → ℕ)
    → ((n : ℕ) → 0 < n → draw n < n)
    → Chosen b exclude now (next b exclude now draw)
unfolding next
next-Chosen b exclude now draw d = go (available test size 0) refl
  where
    test : ℕ → Bool
    test = usable b exclude now

    size : ℕ
    size = length b.upstreams

    go : (xs : List ℕ) → available test size 0 ≡ xs → Chosen b exclude now (choose b test draw xs)
    go [] e = (
      refl,
      λ i h.
          usable_refuses b exclude now i
            (available-nil test size 0 i e (omega arith) (omega arith)),
    )
    go (first ∷ rest) e = elim (Bool-cases (str_eq b.algorithm (codes "random"))) [
      | inl random ↦
          rw (random, choose)
            (Chosen-select b b exclude now (get_or (first ∷ rest) k first)
              (All-get_or (Candidate test 0 size) (first ∷ rest) k first all (d _ (omega arith)))
              refl)
      | inr robin ↦
          rw (robin, choose)
            (Chosen-select b _ exclude now (rotate test b.current size first size 0)
              (rotate-Candidate test b.current size first size 0 (omega (arith, all.0.1)) all.0)
              refl)
    ]
      where
        k : ℕ
        k = draw (length (first ∷ rest))

        all : All (Candidate test 0 size) (first ∷ rest)
        all = rw e at (available-All_zero test size)

Chosen-ne-none :
    (b : Balancer) (exclude now : ℤ) (i : ℕ) (r : Balancer × Option Selection)
    → Chosen b exclude now r
    → i < length b.upstreams
    → IsUsable b exclude now i
    → r.1 ≢ none
Chosen-ne-none b exclude now i (b', none) c h (other, over) e = elim (c.1 i h) [
  | inl excluded ↦ other excluded
  | inr cooling ↦ omega arith
]
Chosen-ne-none b exclude now i (b', some s) c h u e = cc

-- One upstream that may be used is enough for `Next` to find one.
pub next_serves :
    (b : Balancer) (exclude now : ℤ) (i : ℕ) (draw : ℕ → ℕ)
    → ((n : ℕ) → 0 < n → draw n < n)
    → i < length b.upstreams
    → IsUsable b exclude now i
    → (next b exclude now draw).1 ≢ none
next_serves b exclude now i draw d =
    Chosen-ne-none b exclude now i (next b exclude now draw) (next-Chosen b exclude now draw d)
