-- ===== src/Limits/Tests.antt =====
-- internal/proxy/limits.go: runs on concrete limiters, and the theorems at them.
use go_proxy_mux.Prelude.{◌≡◌, refl, true, false, List, [], ◌∷◌, none, some, arith, All}
use go_proxy_mux.Prelude.Int.{pos, ◌+ℤ◌, ◌-ℤ◌}
use go_proxy_mux.Prelude.Bytes.{Bytes, codes, str_eq}
use go_proxy_mux.Prelude.Dict.{lookup, insert, delete}
use go_proxy_mux.Net.{split_host_port}
use go_proxy_mux.Limits.{
  Limiter, Lease, count, is_full, add_one, subtract_one, normal_key, try_acquire, release,
  new_concurrent_limiter,
}
use go_proxy_mux.Limits.Counts.{live, live_of, Tally, add_one-Tally}
use go_proxy_mux.Limits.Ledger.{Ledger, acquires, releases, run, empty_ledger, Inv, run-empty-Inv}
use go_proxy_mux.Limits.Accept.{
  address_host, Incoming, arrives, Connection, accept, close, Refused, Stopped, accept-Stopped,
}

-- The definitions that the tests run.
program : Unit {0}
unfolding str_eq lookup insert delete count is_full add_one subtract_one normal_key try_acquire
    release new_concurrent_limiter address_host split_host_port accept close ◌+ℤ◌ ◌-ℤ◌
program = tt

abbrev home : Bytes
home = codes "10.0.0.1"

abbrev home_lease : Lease
home_lease = record { key = home; released = false }

abbrev used : Limiter
used = record {
  max_total = pos 2;
  max_per_key = pos 1;
  total = pos 1;
  per_key = (home, pos 1) ∷ [];
}

abbrev fresh : Limiter
fresh = record used { total = pos 0; per_key = [] }

test_acquire : try_acquire fresh home ≡ (used, some home_lease)
unfolding program
test_acquire = refl

test_full : try_acquire used home ≡ (used, none)
unfolding program
test_full = refl

test_release : release used home_lease ≡ (fresh, record home_lease { released = true })
unfolding program
test_release = refl

-- The second connection of an address is closed, and the next address is let in.
test_accept :
    (accept used (arrives (codes "10.0.0.1:5000") ∷ arrives (codes "[::1]:5001") ∷ [])).closed
    ≡ codes "10.0.0.1:5000" ∷ []
unfolding program
test_accept = refl

used-Tally : Tally used (home_lease ∷ [])
unfolding program live live_of
used-Tally = add_one-Tally fresh [] home (record { total = refl; per_key = λ k. refl })

abbrev used_ledger : Ledger
used_ledger = record { limiter = used; leases = home_lease ∷ [] }

run-empty-Inv_example : Inv (pos 2) (pos 1) (
    run
      (empty_ledger (pos 2) (pos 1))
      (acquires home ∷ acquires home ∷ releases 0 ∷ releases 0 ∷ acquires [] ∷ []))
run-empty-Inv_example =
    run-empty-Inv (pos 2) (pos 1)
      (acquires home ∷ acquires home ∷ releases 0 ∷ releases 0 ∷ acquires [] ∷ []) (omega arith)
      (omega arith)

abbrev two_arrivals : List Incoming
two_arrivals = arrives (codes "10.0.0.1:5000") ∷ arrives (codes "[::1]:5001") ∷ []

accept-Stopped_example :
    All (Refused used) (accept used two_arrivals).closed
    × Stopped used two_arrivals (accept used two_arrivals) (accept used two_arrivals).outcome
accept-Stopped_example = accept-Stopped used two_arrivals

abbrev connection : Connection
connection = record { remote = codes "10.0.0.1:5000"; lease = home_lease; once = false }
