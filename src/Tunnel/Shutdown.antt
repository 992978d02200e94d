-- ===== src/Tunnel/Shutdown.antt =====
-- internal/proxy/tunnel.go: the counter of the registry, and that a shutdown ends.
use go_proxy_mux.Prelude.{
  ℕ, suc, ◌<◌, ◌==◌, ◌≡◌, refl, sym, ap, ◌∙◌, subst, Bool, true, false, not, ◌&&◌, ◌||◌, Bool-cases,
  inl, inr, List, [], ◌∷◌, Option, none, some, length, arith, if◌then◌else◌,
}
use go_proxy_mux.Tunnel.Registry.{
  Registry, new_tunnel_registry, track, exists, without, forget, close_all, all_ended, wait_for,
  Operation, tracking, closing_all, forgetting, step, run,
}

-- No pair twice, and each of them made.
unfoldable pub Fresh : ℕ → List ℕ → Type 0
Fresh made [] = Unit
Fresh made (p ∷ ps) = (p < made) × (exists p ps ≡ false) × Fresh made ps

-- The counter is the number of pairs.
pub record IsValid (r : Registry) : Type 0 where
  pub counted : r.wait ≡ length r.active
  pub fresh : Fresh r.made r.active

unmade : (made : ℕ) (ps : List ℕ) → Fresh made ps → exists made ps ≡ false
unfolding Fresh exists
unmade made [] f = refl
unmade made (p ∷ ps) f = ground (arith, unmade made ps)

later : (made : ℕ) (ps : List ℕ) → Fresh made ps → Fresh (suc made) ps
unfolding Fresh
later made [] f = tt
later made (p ∷ ps) f = (omega (arith, f.0), f.1, later made ps f.2)

pub exists-without :
    (p q : ℕ) (ps : List ℕ) → exists q (without p ps) ≡ (exists q ps && not (q == p))
unfolding exists without
exists-without p q [] = refl
exists-without p q (x ∷ ps) = ground (arith, exists-without p q ps)

without_absent : (p : ℕ) (ps : List ℕ) → exists p ps ≡ false → length (without p ps) ≡ length ps
unfolding exists without
without_absent p [] h = refl
without_absent p (q ∷ ps) h = ground (arith, without_absent p ps)

length-without :
    (made p : ℕ) (ps : List ℕ)
    → Fresh made ps
    → exists p ps ≡ true
    → suc (length (without p ps)) ≡ length ps
unfolding exists without Fresh
length-without made p [] f h = absurd (ground arith)
length-without made p (q ∷ ps) f h = elim (Bool-cases (q == p)) [
  | inl same ↦
      let here : q ≡ p = ground arith in
      let none_left = subst (λ x. exists x ps ≡ false) here f.1 in
      rw same (ap suc (without_absent p ps none_left))
  | inr other ↦
      let there : exists p ps ≡ true = ground arith in
      rw other (ap suc (length-without made p ps f.2 there))
]

without-Fresh : (made p : ℕ) (ps : List ℕ) → Fresh made ps → Fresh made (without p ps)
unfolding without Fresh
without-Fresh made p [] f = tt
without-Fresh made p (q ∷ ps) f = elim (Bool-cases (q == p)) [
  | inl same ↦ rw same (without-Fresh made p ps f.2)
  | inr other ↦ rw other (f.0, rw (exists-without p q ps, f.1) refl, without-Fresh made p ps f.2)
]

pub if_true : {A : Type 0} {t : Bool} (a b : A) → t ≡ true → (if t then a else b) ≡ a
if_true a b e = rw e refl

pub if_false : {A : Type 0} {t : Bool} (a b : A) → t ≡ false → (if t then a else b) ≡ b
if_false a b e = rw e refl

pub track_closed : (r : Registry) → r.closing ≡ true → track r ≡ (r, none)
unfolding track
track_closed r h = if_true (r, none) _ h

track_closing : (r : Registry) → r.closing ≡ true → (track r).0 ≡ r
track_closing r h = ap (λ (t : Registry × Option ℕ). t.0) (track_closed r h)

-- Another pair.
abbrev pub joined : Registry → Registry
joined r = record r { active = r.made ∷ r.active; wait = suc r.wait; made = suc r.made }

pub track-joined : (r : Registry) → r.closing ≡ false → track r ≡ (joined r, some r.made)
unfolding track
track-joined r h = if_false _ (joined r, some r.made) h

track_open : (r : Registry) → r.closing ≡ false → (track r).0 ≡ joined r
track_open r h = ap (λ (t : Registry × Option ℕ). t.0) (track-joined r h)

pub step-IsValid : (op : Operation) (r : Registry) → IsValid r → IsValid (step op r)
unfolding step track forget close_all Fresh
step-IsValid tracking r v = elim (Bool-cases r.closing) [
  | inl closed ↦ subst IsValid (sym (track_closing r closed)) v
  | inr open_still ↦ subst IsValid (sym (track_open r open_still)) (record {
    counted = ap suc v.counted;
    fresh = (omega arith, unmade r.made r.active v.fresh, later r.made r.active v.fresh);
  })
]
step-IsValid closing_all r v = record { counted = v.counted; fresh = v.fresh }
step-IsValid (forgetting p) r v = elim (Bool-cases (exists p r.active)) [
  | inl there ↦
      let fewer = length-without r.made p r.active v.fresh there in
      rw there (record {
        counted = omega (arith, fewer, v.counted);
        fresh = without-Fresh r.made p r.active v.fresh;
      })
  | inr gone ↦ rw gone v
]

pub run-IsValid : (ops : List Operation) (r : Registry) → IsValid r → IsValid (run ops r)
unfolding run
run-IsValid [] r v = v
run-IsValid (op ∷ ops) r v = run-IsValid ops (step op r) (step-IsValid op r v)

pub new_tunnel_registry-IsValid : IsValid new_tunnel_registry
unfolding Fresh
new_tunnel_registry-IsValid = record { counted = refl; fresh = tt }

-- Whether the pair is forgotten in the end.
unfoldable pub forgotten : ℕ → List Operation → Bool
forgotten p [] = false
forgotten p (tracking ∷ ops) = forgotten p ops
forgotten p (closing_all ∷ ops) = forgotten p ops
forgotten p (forgetting q ∷ ops) = p == q || forgotten p ops

step-closing : (op : Operation) (r : Registry) → r.closing ≡ true → (step op r).closing ≡ true
unfolding step track forget close_all
step-closing tracking r h = ap (λ s. s.closing) (track_closing r h) ∙ h
step-closing closing_all r h = refl
step-closing (forgetting p) r h = ground arith

pub exists-forget :
    (p q : ℕ) (r : Registry) → exists q (forget p r).active ≡ (exists q r.active && not (q == p))
unfolding forget
exists-forget p q r = elim (Bool-cases (exists p r.active)) [
  | inl there ↦ rw there (exists-without p q r.active)
  | inr gone ↦ rw gone (untouched p q r.active gone)
]
  where
    untouched :
        (p q : ℕ) (ps : List ℕ) → exists p ps ≡ false → exists q ps ≡ (exists q ps && not (q == p))
    untouched p q ps none_there = elim (Bool-cases (q == p)) [
      | inl same ↦
          let here : q ≡ p = ground arith in
          let q_gone = subst (λ x. exists x ps ≡ false) (sym here) none_there in
          rw (same, q_gone) refl
      | inr other ↦ rw other (ground arith)
    ]

-- Once the registry is closing, its pairs are those that were there and are not forgotten.
exists-run :
    (q : ℕ) (ops : List Operation) (r : Registry)
    → r.closing ≡ true
    → exists q (run ops r).active ≡ (exists q r.active && not (forgotten q ops))
unfolding run forgotten step close_all
exists-run q [] r h = ground arith
exists-run q (tracking ∷ ops) r h =
    ap (λ s. exists q (run ops s).active) (track_closing r h) ∙ exists-run q ops r h
exists-run q (closing_all ∷ ops) r h = exists-run q ops (step closing_all r) refl
exists-run q (forgetting p ∷ ops) r h =
    exists-run q ops (step (forgetting p) r) (step-closing (forgetting p) r h)
    ∙ ap (λ t. t && not (forgotten q ops)) (exists-forget p q r)
    ∙ both (exists q r.active) (q == p) (forgotten q ops)
  where
    both : (a b c : Bool) → ((a && not b) && not c) ≡ (a && not (b || c))
    both a b c = ground arith

no_pairs : (ps : List ℕ) → ((p : ℕ) → exists p ps ≡ false) → ps ≡ []
unfolding exists
no_pairs [] h = refl
no_pairs (p ∷ ps) h = let none_there = h p in absurd (ground arith)

-- After any operations on a new registry: where every pair that closeAll closes is forgotten by its
-- handler some time later, whatever else happens in between, the counter is 0 then, and waitFor
-- returns without an error while its context is not done.
pub wait_for-close_all :
    (before after : List Operation)
    → ((p : ℕ)
        → exists p (close_all (run before new_tunnel_registry)).1 ≡ true
        → forgotten p after ≡ true)
    → wait_for (run after (close_all (run before new_tunnel_registry)).0) false false
      ≡ some all_ended
unfolding wait_for close_all step
wait_for-close_all before after h =
    let r = run before new_tunnel_registry in
    let valid = run-IsValid before new_tunnel_registry new_tunnel_registry-IsValid in
    let closed = step-IsValid closing_all r valid in
    let left = run-IsValid after (close_all r).0 closed in
    let empty =
      no_pairs (run after (close_all r).0).active
        (λ p. exists-run p after (close_all r).0 refl ∙ ended p) in
    rw (left.counted ∙ ap length empty) refl
  where
    ended :
        (p : ℕ)
        → (exists p (run before new_tunnel_registry).active && not (forgotten p after)) ≡ false
    ended p = elim (Bool-cases (exists p (run before new_tunnel_registry).active)) [
      | inl there ↦ rw (there, h p there) refl
      | inr gone ↦ rw gone refl
    ]
