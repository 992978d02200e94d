-- ===== src/Limits/Accept.antt =====
-- internal/proxy/limits.go: limitedListener.Accept, limitedConnection.Close and addressHost. The
-- connections that the inner listener gives are a list of events, each with its remote address.
use go_proxy_mux.Prelude.{
  ℕ, ◌≡◌, refl, sym, subst, Bool, true, false, Bool-cases, List, [], ◌∷◌, ◌++◌, map, Option, none,
  some, arith, All, if◌then◌else◌, ap, ◌⊎◌, inl, inr,
}
use go_proxy_mux.Prelude.Bytes.{Bytes}
use go_proxy_mux.Net.{split_host_port}
use go_proxy_mux.Limits.{Limiter, Lease, try_acquire, release, is_full, normal_key}

host_or : Bytes → Option (Bytes × Bytes) → Bytes
host_or address none = address
host_or address (some (host, port)) = host

unfoldable pub address_host : Bytes → Bytes
unfolding host_or
address_host address = host_or address (split_host_port address)

pub data Incoming : Type 0 where
  arrives : Bytes → Incoming
  fails : ℕ → Incoming

pub record Connection : Type 0 where
  pub remote : Bytes
  pub lease : Lease
  pub once : Bool

-- `waiting`: the inner Accept has not returned yet.
pub data Outcome : Type 0 where
  waiting : Outcome
  failed : ℕ → Outcome
  accepted : Connection → Outcome

pub record Accepting : Type 0 where
  pub limiter : Limiter
  pub closed : List Bytes
  pub outcome : Outcome
  pub rest : List Incoming

-- The loop's body for a connection; `again` is the loop on what arrives later.
admit : Bytes → List Incoming → (Limiter → Accepting) → Limiter × Option Lease → Accepting
admit remote xs again (l, none) = let r = again l in record r { closed = remote ∷ r.closed }
admit remote xs again (l, some lease) = record {
  limiter = l;
  closed = [];
  outcome = accepted (record { remote = remote; lease = lease; once = false });
  rest = xs;
}

unfoldable pub accept : Limiter → List Incoming → Accepting
unfolding admit
accept l [] = record { limiter = l; closed = []; outcome = waiting; rest = [] }
accept l (fails e ∷ xs) = record { limiter = l; closed = []; outcome = failed e; rest = xs }
accept l (arrives remote ∷ xs) =
    admit remote xs (λ l'. accept l' xs) (try_acquire l (address_host remote))

-- `Close`, after the inner connection's own: the release runs once.
unfoldable pub close : Limiter → Connection → Limiter × Connection
close l c =
    if c.once
    then (l, c)
    else (let (l', lease) = release l c.lease in (l', record c { lease = lease; once = true }))

abbrev pub Stopped : Limiter → List Incoming → Accepting → Outcome → Type 0
Stopped l xs r waiting = (xs ≡ map arrives r.closed) × (r.limiter ≡ l)
Stopped l xs r (failed e) = (xs ≡ map arrives r.closed ++ fails e ∷ r.rest) × (r.limiter ≡ l)
Stopped l xs r (accepted c) =
    (xs ≡ map arrives r.closed ++ arrives c.remote ∷ r.rest)
    × (try_acquire l (address_host c.remote) ≡ (r.limiter, some c.lease))
    × (c.once ≡ false)

abbrev pub Refused : Limiter → Bytes → Type 0
Refused l remote = (try_acquire l (address_host remote)).1 ≡ none

-- A refused acquisition changes nothing.
try_acquire_refused :
    (l : Limiter) (key : Bytes)
    → (try_acquire l key ≡ (l, none))
      ⊎ ((e : Lease) × (try_acquire l key ≡ ((try_acquire l key).0, some e)))
unfolding try_acquire
try_acquire_refused l key = elim (Bool-cases (is_full l (normal_key key))) [
  | inl full ↦ inl (rw full)
  | inr room ↦ inr (record { key = normal_key key; released = false }, rw room)
]

Stopped-later :
    (l : Limiter) (xs : List Incoming) (remote : Bytes) (r : Accepting) (o : Outcome)
    → Stopped l xs r o
    → Stopped l (arrives remote ∷ xs) (record r { closed = remote ∷ r.closed }) o
Stopped-later l xs remote r waiting (e, same) = (ap (◌∷◌ (arrives remote)) e, same)
Stopped-later l xs remote r (failed _) (e, same) = (ap (◌∷◌ (arrives remote)) e, same)
Stopped-later l xs remote r (accepted c) (e, got, fresh) = (ap (◌∷◌ (arrives remote)) e, got, fresh)

accept_on :
    (l : Limiter) (remote : Bytes) (xs : List Incoming) {r : Limiter × Option Lease}
    → try_acquire l (address_host remote) ≡ r
    → accept l (arrives remote ∷ xs) ≡ admit remote xs (λ l'. accept l' xs) r
unfolding accept
accept_on l remote xs e = ap (admit remote xs (λ l'. accept l' xs)) e

-- Accept closes the connections that arrive over a limit, in order, and changes nothing for them;
-- it returns the first one within the limits, which then holds one lease for its address, or the
-- inner listener's first error, or goes on waiting; what arrives later is left.
pub accept-Stopped :
    (l : Limiter) (xs : List Incoming)
    → All (Refused l) (accept l xs).closed × Stopped l xs (accept l xs) (accept l xs).outcome
unfolding accept
accept-Stopped l [] = (tt, (refl, refl))
accept-Stopped l (fails e ∷ xs) = (tt, (refl, refl))
accept-Stopped l (arrives remote ∷ xs) = elim (try_acquire_refused l (address_host remote)) [
  | inl e ↦
      let (refused, stopped) = accept-Stopped l xs in
      subst Described (sym (accept_on l remote xs e))
        ((ap (λ t. t.1) e, refused), Stopped-later l xs remote (accept l xs) _ stopped)
  | inr (lease, e) ↦ subst Described (sym (accept_on l remote xs e)) (tt, (refl, e, refl))
]
  where
    Described : Accepting → Type 0
    Described r = All (Refused l) r.closed × Stopped l (arrives remote ∷ xs) r r.outcome

-- Closing a connection a second time gives nothing back.
pub close_twice :
    (l : Limiter) (c : Connection) → (let (l', c') = close l c in close l' c') ≡ close l c
unfolding close
close_twice l c = ground arith
