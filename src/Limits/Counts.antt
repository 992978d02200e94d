-- ===== src/Limits/Counts.antt =====
-- internal/proxy/limits.go: what one acquisition and one release do to the counters.
use go_proxy_mux.Prelude.{
  ℕ, zero, suc, ◌≡◌, refl, inl, inr, true, false, Bool-cases, List, [], ◌∷◌, Option, none, some,
  arith, get_elem?, set, ap, ◌∙◌, if◌then◌else◌,
}
use go_proxy_mux.Prelude.Int.{ℤ, pos, ◌+ℤ◌, ◌-ℤ◌}
use go_proxy_mux.Prelude.Bytes.{Bytes, str_eq, str_eq_iff}
use go_proxy_mux.Prelude.Dict.{lookup, lookup-insert, lookup-delete}
use go_proxy_mux.Limits.{Limiter, Lease, or_zero, count, add_one, drop_one, subtract_one}

-- The leases that are out, all of them and those for one key.
unfoldable pub live : List Lease → ℕ
live [] = 0
live (e ∷ es) = if e.released then live es else suc (live es)

unfoldable pub live_of : Bytes → List Lease → ℕ
live_of k [] = 0
live_of k (e ∷ es) =
    if e.released then live_of k es else if str_eq e.key k then suc (live_of k es) else live_of k es

-- The entry of a map that keeps no zeros.
abbrev pub entry : ℕ → Option ℤ
entry zero = none
entry (suc n) = some (pos (suc n))

pub record Tally (l : Limiter) (es : List Lease) : Type 0 where
  pub total : l.total ≡ pos (live es)
  pub per_key : (k : Bytes) → lookup k l.per_key ≡ entry (live_of k es)

or_zero-entry : (n : ℕ) → or_zero (entry n) ≡ pos n
or_zero-entry zero = refl
or_zero-entry (suc n) = refl

pub count-Tally :
    (l : Limiter) (es : List Lease) (k : Bytes) → Tally l es → count l k ≡ pos (live_of k es)
unfolding count
count-Tally l es k t = rw (t.per_key k) (or_zero-entry (live_of k es))

pos_add : (n : ℕ) → pos n +ℤ pos 1 ≡ pos (suc n)
unfolding ◌+ℤ◌
pos_add n = ground arith

pos_sub : (n : ℕ) → pos (suc n) -ℤ pos 1 ≡ pos n
unfolding ◌-ℤ◌
pos_sub n = ground arith

-- A new lease adds one to its own key.
pub add_one-Tally :
    (l : Limiter) (es : List Lease) (key : Bytes)
    → Tally l es
    → Tally (add_one l key) (record { key = key; released = false } ∷ es)
unfolding add_one live live_of
add_one-Tally l es key t = record {
  total = rw t.total (pos_add (live es));
  per_key = λ k.
      lookup-insert key k (count l key +ℤ pos 1) l.per_key ∙ elim (Bool-cases (str_eq key k)) [
        | inl same ↦
            rw same (ap some (rw (count-Tally l es key t, (str_eq_iff key k).0 same) (pos_add _)))
        | inr other ↦ rw other (t.per_key k)
      ];
}

-- The leases once number `i`, which is `e`, is released.
abbrev pub closed : List Lease → ℕ → Lease → List Lease
closed es i e = set es i (record e { released = true })

pub live-closed :
    (es : List Lease) (i : ℕ) (e : Lease)
    → get_elem? es i ≡ some e
    → e.released ≡ false
    → live es ≡ suc (live (closed es i e))
unfolding live
live-closed [] i e found open_yet = absurd (ground arith)
live-closed (x ∷ es) zero e found open_yet = ground arith
live-closed (x ∷ es) (suc i) e found open_yet = ground (arith, live-closed es i e found open_yet)

pub live_of-closed :
    (k : Bytes) (es : List Lease) (i : ℕ) (e : Lease)
    → get_elem? es i ≡ some e
    → e.released ≡ false
    → live_of k es
      ≡ (if str_eq e.key k then suc (live_of k (closed es i e)) else live_of k (closed es i e))
unfolding live_of
live_of-closed k [] i e found open_yet = absurd (ground arith)
live_of-closed k (x ∷ es) zero e found open_yet = ground arith
live_of-closed k (x ∷ es) (suc i) e found open_yet =
    ground (arith, live_of-closed k es i e found open_yet)

lookup-drop_one :
    (key k : Bytes) (n : ℕ) (m : List (Bytes × ℤ))
    → lookup k (drop_one key (pos n) m) ≡ (if str_eq key k then entry n else lookup k m)
unfolding drop_one
lookup-drop_one key k zero m = lookup-delete key k m
lookup-drop_one key k (suc n) m = ground (arith, lookup-insert key k (pos (suc n)) m)

count-live_of-closed :
    (l : Limiter) (es : List Lease) (i : ℕ) (e : Lease)
    → Tally l es
    → get_elem? es i ≡ some e
    → e.released ≡ false
    → count l e.key -ℤ pos 1 ≡ pos (live_of e.key (closed es i e))
count-live_of-closed l es i e t found open_yet =
    let split = live_of-closed e.key es i e found open_yet in
    let same = (str_eq_iff e.key e.key).1 refl in
    rw (count-Tally l es e.key t, rw same at split) (pos_sub _)

-- A release takes one from its own key.
pub subtract_one-Tally :
    (l : Limiter) (es : List Lease) (i : ℕ) (e : Lease)
    → Tally l es
    → get_elem? es i ≡ some e
    → e.released ≡ false
    → Tally (subtract_one l e.key) (closed es i e)
unfolding subtract_one
subtract_one-Tally l es i e t found open_yet = record {
  total = rw (t.total, live-closed es i e found open_yet) (pos_sub _);
  per_key = λ k. rw (count-live_of-closed l es i e t found open_yet) (
      lookup-drop_one e.key k (live_of e.key (closed es i e)) l.per_key
      ∙ elim (Bool-cases (str_eq e.key k)) [
        | inl same ↦ rw same (ap (λ j. entry (live_of j (closed es i e))) ((str_eq_iff _ _).0 same))
        | inr other ↦
            let kept = live_of-closed k es i e found open_yet in
            rw other (rw (rw other at kept) at (t.per_key k))
      ]);
}
