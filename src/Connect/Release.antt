-- ===== src/Connect/Release.antt =====
-- internal/proxy/connect.go: the tunnel limiter over a whole handleConnect.
use go_proxy_mux.Prelude.{
  ◌≡◌, refl, sym, ◌∙◌, false, List, ◌∷◌, Option, none, some, Bool-cases, inl, inr,
}
use go_proxy_mux.Prelude.Bytes.{Bytes}
use go_proxy_mux.Prelude.Dict.{lookup}
use go_proxy_mux.Balancer.{Balancer, Selection}
use go_proxy_mux.Limits.{
  Limiter, Lease, normal_key, is_full, add_one, subtract_one, try_acquire, release,
}
use go_proxy_mux.Limits.Accept.{address_host}
use go_proxy_mux.Limits.Counts.{Tally, live, live_of, add_one-Tally, subtract_one-Tally}
use go_proxy_mux.Connect.{
  Surroundings, Request, Reply, Handled, check_request, with_lease, unless_refused, handle_connect,
}

-- The same total, and the same count for each key.
pub record SameCounts (l l' : Limiter) : Type 0 where
  pub total : l'.total ≡ l.total
  pub per_key : (k : Bytes) → lookup k l'.per_key ≡ lookup k l.per_key

SameCounts-refl : (l : Limiter) → SameCounts l l
SameCounts-refl l = record { total = refl; per_key = λ k. refl }

add-subtract :
    (l : Limiter) (es : List Lease) (key : Bytes)
    → Tally l es
    → SameCounts l (subtract_one (add_one l key) key)
unfolding live live_of
add-subtract l es key t =
    let new : Lease = record { key = key; released = false } in
    let t' =
      subtract_one-Tally (add_one l key) (new ∷ es) 0 new (add_one-Tally l es key t) refl refl in
    record { total = t'.total ∙ sym t.total; per_key = λ k. t'.per_key k ∙ sym (t.per_key k) }

with_lease-SameCounts :
    (out : Surroundings) (b : Balancer) (s : Selection) (l : Limiter) (es : List Lease)
    (given : Bytes)
    → Tally l es
    → SameCounts l (with_lease out b s (try_acquire l given)).limiter
unfolding try_acquire release
with_lease-SameCounts out b s l es given t = elim (Bool-cases (is_full l (normal_key given))) [
  | inl full ↦ rw full (SameCounts-refl l)
  | inr room ↦ rw room (add-subtract l es (normal_key given) t)
]

refused-SameCounts :
    (l : Limiter) (b : Balancer) (m : Option Reply) (h : Handled)
    → SameCounts l h.limiter
    → SameCounts l (unless_refused l b m h).limiter
refused-SameCounts l b none h same = same
refused-SameCounts l b (some reply) h same = SameCounts-refl l

-- However the handler ends, refused, without an upstream or behind a tunnel, it gives its place in
-- the tunnel limiter back: every count is what it was, where the limiter counts its leases rightly.
pub handle_connect-SameCounts :
    (out : Surroundings) (l : Limiter) (b : Balancer) (r : Request) (s : Selection)
    (es : List Lease)
    → Tally l es
    → SameCounts l (handle_connect out l b r s).limiter
unfolding handle_connect
handle_connect-SameCounts out l b r s es t =
    refused-SameCounts l b (check_request out r) _
      (with_lease-SameCounts out b s l es (address_host r.remote_addr) t)
