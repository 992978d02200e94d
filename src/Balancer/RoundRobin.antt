-- ===== src/Balancer/RoundRobin.antt =====
-- internal/balancer/balancer.go, Next under an algorithm other than "random": the cyclic order.
use native.Mathlib.Nat.{mod-lt, add-zero, mod-add-mod, add-mod_right, mod-eq_of_lt}
use native.Mathlib.Decide.{dec_lt, ℕ_discrete}
use go_proxy_mux.Prelude.{
  ℕ, zero, suc, ◌+◌, ◌-◌, ◌%◌, ◌≤◌, ◌<◌, ◌≡◌, refl, subst, ◌∙◌, ◌⊎◌, inl, inr, Bool, true, false,
  List, [], ◌∷◌, Option, some, arith, length, get_elem?, All, get_or, Bool-cases,
}
use go_proxy_mux.Prelude.Int.{ℤ, pos, negsuc, ◌≤ℤ◌}
use go_proxy_mux.Prelude.Bytes.{codes, str_eq}
use go_proxy_mux.Balancer.{Selection, Balancer, usable, available, rotate, choose, next, select}
use go_proxy_mux.Balancer.Select.{
  available-nil, available_head, IsUsable, usable-IsUsable, IsUsable-usable,
}

-- Every index lies at some distance below `size` from a cursor below `size`,
distance_below :
    (c size index : ℕ) → c < size → index < size → (o : ℕ) × (o < size) × ((c + o) % size ≡ index)
distance_below c size index p h = elim (dec_lt index c) [
  | yes q ↦
      let wrap : c + (index + size - c) ≡ index + size = omega arith in
      (index + size - c, omega arith, rw (wrap, add-mod_right) (mod-eq_of_lt h))
  | no q ↦
      let straight : c + (index - c) ≡ index = omega arith in
      (index - c, omega arith, rw straight (mod-eq_of_lt h))
]

-- and so from any cursor.
distance :
    (current size index : ℕ) → index < size → (o : ℕ) × (o < size) × ((current + o) % size ≡ index)
distance current size index h =
    let (o, below, hits) = distance_below (current % size) size index (mod-lt _ (omega arith)) h in
    (o, below, rw mod-add-mod at hits)

-- No candidate at the distances from `offset` up to `bound` passes.
abbrev NonePass : (ℕ → Bool) → ℕ → ℕ → ℕ → ℕ → Type 0
NonePass test current size offset bound =
    (o : ℕ) → offset ≤ o → o < bound → test ((current + o) % size) ≡ false

NonePass-here :
    (test : ℕ → Bool) (current size offset bound : ℕ)
    → test ((current + offset) % size) ≡ false
    → NonePass test current size (suc offset) bound
    → NonePass test current size offset bound
NonePass-here test current size offset bound f later o h k = elim (ℕ_discrete o offset) [
  | yes e ↦ rw e f
  | no other ↦ later o (omega arith) k
]

-- The second loop returns the first candidate that passes, or there is none.
rotate_first :
    (test : ℕ → Bool) (current size index rounds offset : ℕ)
    → ((o : ℕ) × (o < offset + rounds)
        × (rotate test current size index rounds offset ≡ (current + o) % size)
        × (test ((current + o) % size) ≡ true)
        × NonePass test current size offset o)
      ⊎ NonePass test current size offset (offset + rounds)
unfolding rotate
rotate_first test current size index zero offset = inr (λ o h k. absurd (omega arith))
rotate_first test current size index (suc rounds) offset =
    elim (Bool-cases (test ((current + offset) % size))) [
      | inl t ↦ inl (offset, omega arith, rw t, t, λ o h k. absurd (omega arith))
      | inr f ↦ rw f (elim (rotate_first test current size index rounds (suc offset)) [
        | inl (o, bound, e, pass, none_pass) ↦
            inl (o, omega arith, e, pass, NonePass-here test current size offset o f none_pass)
        | inr none_pass ↦ inr (λ o h k.
            NonePass-here test current size offset (suc offset + rounds) f none_pass o h
              (omega arith))
      ])
    ]

-- A candidate below `size` is met within `size` rounds.
rotate_meets :
    (test : ℕ → Bool) (current size index : ℕ)
    → index < size
    → test index ≡ true
    → (o : ℕ) × (o < size)
      × (rotate test current size index size 0 ≡ (current + o) % size)
      × (test ((current + o) % size) ≡ true)
      × NonePass test current size 0 o
rotate_meets test current size index h t = elim (rotate_first test current size index size 0) [
  | inl (o, bound, e, pass, none_pass) ↦ (o, omega arith, e, pass, none_pass)
  | inr none_pass ↦
      let (o, below, hits) = distance current size index h in
      let missed : test index ≡ false =
        subst (λ i. test i ≡ false) hits (none_pass o (omega arith) (omega arith)) in
      cc
]

-- What `choose` returns under round robin.
choose_round_robin :
    (b : Balancer) (test : ℕ → Bool) (draw : ℕ → ℕ) (xs : List ℕ) (b' : Balancer) (s : Selection)
    → str_eq b.algorithm (codes "random") ≡ false
    → choose b test draw xs ≡ (b', some s)
    → (first : ℕ) × (rest : List ℕ) × (xs ≡ first ∷ rest)
      × (s.index ≡ rotate test b.current (length b.upstreams) first (length b.upstreams) 0)
      × (b'.current ≡ (s.index + 1) % length b.upstreams)
unfolding choose
choose_round_robin b test draw [] b' s robin e = absurd (ground arith)
choose_round_robin b test draw (first ∷ rest) b' s robin e =
    let e' = rw robin at e in (first, rest, refl, ground arith, ground arith)

-- Under round robin `Next` takes the first upstream in cyclic order from the cursor that is neither
-- excluded nor cooling down, passes over only those that are, and leaves the cursor behind it.
pub next_round_robin :
    (b : Balancer) (exclude now : ℤ) (draw : ℕ → ℕ) (b' : Balancer) (s : Selection)
    → str_eq b.algorithm (codes "random") ≡ false
    → next b exclude now draw ≡ (b', some s)
    → (o : ℕ) × (o < length b.upstreams)
      × (s.index ≡ (b.current + o) % length b.upstreams)
      × ((k : ℕ) → k < o → ¬ IsUsable b exclude now ((b.current + k) % length b.upstreams))
      × IsUsable b exclude now s.index
      × (b'.current ≡ (s.index + 1) % length b.upstreams)
unfolding next
next_round_robin b exclude now draw b' s robin e =
    let size = length b.upstreams in
    let test = usable b exclude now in
    let (first, rest, found, at_index, cursor) =
      choose_round_robin b test draw (available test size 0) b' s robin e in
    let here : (first < size) × (test first ≡ true) = available_head test size first rest found in
    let (o, bound, meets, pass, none_pass) = rotate_meets test b.current size first here.0 here.1 in
    let hit : s.index ≡ (b.current + o) % size = at_index ∙ meets in
    (
      o,
      bound,
      hit,
      λ k below u. refute (none_pass k (omega arith) below) (IsUsable-usable b exclude now _ u),
      usable-IsUsable b exclude now s.index (rw hit pass),
      cursor,
    )
  where
    refute : {t : Bool} → t ≡ false → t ≡ true → ⊥
    refute p q = cc

-- Every upstream's cooldown is over.
abbrev pub AllHealthy : Balancer → ℤ → Type 0
AllHealthy b now = (i : ℕ) → i < length b.upstreams → get_or b.unhealthy_until i (pos 0) ≤ℤ now

rotate_at_cursor :
    (test : ℕ → Bool) (current size index : ℕ)
    → index < size
    → test index ≡ true
    → test (current % size) ≡ true
    → rotate test current size index size 0 ≡ current % size
rotate_at_cursor test current size index h t here =
    let (o, below, meets, pass, none_pass) = rotate_meets test current size index h t in
    elim (ℕ_discrete o 0) [
      | yes e ↦ meets ∙ (rw (e, add-zero))
      | no later ↦
          let missed : test (current % size) ≡ false =
            subst (λ c. test (c % size) ≡ false) (add-zero current)
              (none_pass 0 (omega arith) (omega arith)) in
          absurd (ground arith)
    ]

cursor_healthy :
    (b : Balancer) (now : ℤ) (i : ℕ)
    → AllHealthy b now
    → i < length b.upstreams
    → usable b (negsuc 0) now i ≡ true
cursor_healthy b now i h bound = IsUsable-usable b (negsuc 0) now i ((λ e. ground arith), h i bound)

next_at_cursor :
    (b : Balancer) (now : ℤ) (draw : ℕ → ℕ)
    → str_eq b.algorithm (codes "random") ≡ false
    → 0 < length b.upstreams
    → AllHealthy b now
    → next b (negsuc 0) now draw ≡ (
      record b { current = (b.current + 1) % length b.upstreams },
      some (select b (b.current % length b.upstreams)),
    )
unfolding next
next_at_cursor b now draw robin some_room healthy = go (available test size 0) refl
  where
    size : ℕ
    size = length b.upstreams

    test : ℕ → Bool
    test = usable b (negsuc 0) now

    pass : (i : ℕ) → i < size → test i ≡ true
    pass i h = cursor_healthy b now i healthy h

    go :
        (xs : List ℕ)
        → available test size 0 ≡ xs
        → choose b test draw xs
          ≡ (record b { current = (b.current + 1) % size }, some (select b (b.current % size)))
    go [] e = absurd (
        ground (arith, pass 0 some_room, available-nil test size 0 0 e (omega arith) (omega arith)))
    go (first ∷ rest) e =
        let (below, t) = available_head test size first rest e in
        let found =
          rotate_at_cursor test b.current size first below t (pass _ (mod-lt _ some_room)) in
        rw (robin, choose, found, mod-add-mod)

-- The upstreams that a run of calls of `Next` chooses, one for each reading of the clock.
pub choices : Balancer → (ℕ → ℕ) → List ℤ → List (Option Selection)
choices b draw [] = []
choices b draw (now ∷ nows) =
    let (b', chosen) = next b (negsuc 0) now draw in chosen ∷ choices b' draw nows

-- While every upstream's cooldown is over, call number `j` of a run of round robin calls gets the
-- upstream `j` places after the cursor, round the list.
pub choices_cycle :
    (b : Balancer) (draw : ℕ → ℕ) (nows : List ℤ) (j : ℕ)
    → str_eq b.algorithm (codes "random") ≡ false
    → 0 < length b.upstreams
    → All (AllHealthy b) nows
    → j < length nows
    → get_elem? (choices b draw nows) j
      ≡ some (some (select b ((b.current + j) % length b.upstreams)))
unfolding choices
choices_cycle b draw [] j robin some_room healthy h = absurd (omega arith)
choices_cycle b draw (now ∷ nows) zero robin some_room healthy h =
    rw (next_at_cursor b now draw robin some_room healthy.0, add-zero)
choices_cycle b draw (now ∷ nows) (suc j) robin some_room healthy h =
    let size = length b.upstreams in
    let b' : Balancer = record b { current = (b.current + 1) % size } in
    let later = choices_cycle b' draw nows j robin some_room healthy.1 (omega arith) in
    let turn : b.current + 1 + j ≡ b.current + suc j = omega arith in
    rw (next_at_cursor b now draw robin some_room healthy.0) (rw (mod-add-mod, turn) at later)
