-- ===== src/Limits/Ledger.antt =====
-- internal/proxy/limits.go: a limiter with all the release closures that it has given out, under
-- any sequence of acquisitions and of calls of the closures, the same one called twice included.
use go_proxy_mux.Prelude.{
  ℕ, zero, suc, ap, ◌≡◌, refl, sym, subst, ◌⊎◌, inl, inr, ◌↔◌, true, false, Bool-cases,
  Option-cases, List, [], ◌∷◌, Option, none, some, arith, get_elem?, set,
}
use go_proxy_mux.Prelude.Int.{ℤ, pos, ◌≤ℤ◌, ◌<ℤ◌}
use go_proxy_mux.Prelude.Bytes.{Bytes, str_eq_iff}
use go_proxy_mux.Prelude.Dict.{lookup}
use go_proxy_mux.Limits.{
  Limiter, Lease, count, is_full, add_one, subtract_one, normal_key, try_acquire, release,
  new_concurrent_limiter,
}
use go_proxy_mux.Limits.Counts.{
  live, live_of, Tally, count-Tally, add_one-Tally, subtract_one-Tally, live-closed, live_of-closed,
}

pub record Ledger : Type 0 where
  pub limiter : Limiter
  pub open limiter use *
  pub leases : List Lease

pub data Call : Type 0 where
  acquires : Bytes → Call
  releases : ℕ → Call

-- A successful acquisition gives out a new closure.
abbrev granted : Ledger → Limiter × Option Lease → Ledger
granted s (l, none) = record s { limiter = l }
granted s (l, some e) = record { limiter = l; leases = e ∷ s.leases }

-- The closure keeps its sync.Once.
abbrev returned : Ledger → ℕ → Limiter × Lease → Ledger
returned s i (l, e) = record { limiter = l; leases = set s.leases i e }

release_at : Ledger → ℕ → Option Lease → Ledger
release_at s i none = s
release_at s i (some e) = returned s i (release s.limiter e)

pub step : Ledger → Call → Ledger
unfolding release_at
step s (acquires key) = granted s (try_acquire s.limiter key)
step s (releases i) = release_at s i (get_elem? s.leases i)

pub run : Ledger → List Call → Ledger
run s [] = s
run s (c ∷ cs) = run (step s c) cs

pub empty_ledger : ℤ → ℤ → Ledger
empty_ledger max_total max_per_key = record {
  limiter = new_concurrent_limiter max_total max_per_key;
  leases = [];
}

-- The counters count the leases that are out, within the limits.
pub record Inv (max_total max_per_key : ℤ) (s : Ledger) : Type 0 where
  pub tally : Tally s.limiter s.leases
  pub max_total_kept : s.max_total ≡ max_total
  pub max_per_key_kept : s.max_per_key ≡ max_per_key
  pub bounded : pos (live s.leases) ≤ℤ max_total
  pub bounded_of : (k : Bytes) → pos (live_of k s.leases) ≤ℤ max_per_key

-- Whether a key is refused depends on the leases that are out, and on nothing else.
pub try_acquire-eq-none_iff :
    (s : Ledger) (key : Bytes)
    → Tally s.limiter s.leases
    → ((try_acquire s.limiter key).1 ≡ none) ↔ (
        (s.max_total ≤ℤ pos (live s.leases))
        ⊎ (s.max_per_key ≤ℤ pos (live_of (normal_key key) s.leases)))
unfolding try_acquire is_full
try_acquire-eq-none_iff s key t =
    ground (arith, t.total, count-Tally s.limiter s.leases (normal_key key) t)

not_full :
    (l : Limiter) (key : Bytes)
    → is_full l key ≡ false
    → (l.total <ℤ l.max_total) × (count l key <ℤ l.max_per_key)
unfolding is_full
not_full l key h = ground arith

set_same : (es : List Lease) (i : ℕ) (e : Lease) → get_elem? es i ≡ some e → set es i e ≡ es
set_same [] i e found = refl
set_same (x ∷ es) zero e found = ground arith
set_same (x ∷ es) (suc i) e found = ap (◌∷◌ x) (set_same es i e found)

release_done : (l : Limiter) (e : Lease) → e.released ≡ true → release l e ≡ (l, e)
unfolding release
release_done l e done = ground arith

returned_done :
    (s : Ledger) (i : ℕ) (e : Lease)
    → get_elem? s.leases i ≡ some e
    → e.released ≡ true
    → returned s i (release s.limiter e) ≡ s
returned_done s i e found done =
    rw (release_done s.limiter e done)
      (ap (λ es. record s { leases = es }) (set_same s.leases i e found))

-- A second call of a release closure changes nothing.
pub release_twice :
    (l : Limiter) (e : Lease) → (let (l', e') = release l e in release l' e') ≡ release l e
unfolding release
release_twice l e = ground arith

module _ (max_total max_per_key : ℤ) where
  empty_ledger-Inv :
      pos 0 ≤ℤ max_total
      → pos 0 ≤ℤ max_per_key
      → Inv max_total max_per_key (empty_ledger max_total max_per_key)
  unfolding empty_ledger new_concurrent_limiter live live_of lookup
  empty_ledger-Inv h k = record {
    tally = record { total = refl; per_key = λ k. refl };
    max_total_kept = refl;
    max_per_key_kept = refl;
    bounded = h;
    bounded_of = λ _. k;
  }

  acquire-Inv :
      (s : Ledger) (key : Bytes)
      → Inv max_total max_per_key s
      → Inv max_total max_per_key (step s (acquires key))
  unfolding step try_acquire add_one live live_of
  acquire-Inv s given v =
      let key = normal_key given in
      elim (Bool-cases (is_full s.limiter key)) [
        | inl full ↦ rw (full, step) v
        | inr room ↦
            let (some_room, some_room_of) = not_full s.limiter key room in
            rw (room, step)
              (record {
                tally = add_one-Tally s.limiter s.leases key v.tally;
                max_total_kept = v.max_total_kept;
                max_per_key_kept = v.max_per_key_kept;
                bounded = ground arith;
                bounded_of = λ k. ground (
                  arith,
                  v.bounded_of k,
                  str_eq_iff key k,
                  count-Tally s.limiter s.leases key v.tally,
                );
              })
      ]

  release-Inv :
      (s : Ledger) (i : ℕ) (e : Lease)
      → get_elem? s.leases i ≡ some e
      → Inv max_total max_per_key s
      → Inv max_total max_per_key (returned s i (release s.limiter e))
  unfolding release subtract_one
  release-Inv s i e found v = elim (Bool-cases e.released) [
    | inl done ↦ subst (Inv max_total max_per_key) (sym (returned_done s i e found done)) v
    | inr open_yet ↦ rw open_yet (record {
      tally = subtract_one-Tally s.limiter s.leases i e v.tally found open_yet;
      max_total_kept = v.max_total_kept;
      max_per_key_kept = v.max_per_key_kept;
      bounded = ground (arith, live-closed s.leases i e found open_yet);
      bounded_of =
          λ k. ground (arith, v.bounded_of k, live_of-closed k s.leases i e found open_yet);
    })
  ]

  step-Inv :
      (s : Ledger) (c : Call) → Inv max_total max_per_key s → Inv max_total max_per_key (step s c)
  unfolding step
  step-Inv s (acquires key) v = acquire-Inv s key v
  step-Inv s (releases i) v = elim (Option-cases (get_elem? s.leases i)) [
    | inl e ↦ rw (e, release_at) v
    | inr (lease, e) ↦ rw (e, release_at) (release-Inv s i lease e v)
  ]

  run-Inv :
      (s : Ledger) (cs : List Call)
      → Inv max_total max_per_key s
      → Inv max_total max_per_key (run s cs)
  unfolding run
  run-Inv s [] v = v
  run-Inv s (c ∷ cs) v = run-Inv (step s c) cs (step-Inv s c v)

  -- After any sequence of acquisitions and releases, repeated releases included, the total counts
  -- the leases that are out and each key's entry counts its own, a key with none out has no entry,
  -- and neither count exceeds its limit.
  pub run-empty-Inv :
      (cs : List Call)
      → pos 0 ≤ℤ max_total
      → pos 0 ≤ℤ max_per_key
      → Inv max_total max_per_key (run (empty_ledger max_total max_per_key) cs)
  run-empty-Inv cs h k = run-Inv _ cs (empty_ledger-Inv h k)
