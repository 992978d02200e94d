-- ===== src/Limits.antt =====
-- internal/proxy/limits.go: the limiter of connections and of tunnels. The mutex makes each method
-- one step on the state. A release closure is a lease: the key that it captured, and whether its
-- sync.Once has run. Go's counters are signed, and so are these.
pub mod Counts
pub mod Ledger
pub mod Accept
mod Tests
use go_proxy_mux.Prelude.{
  ℕ, Bool, true, false, ◌||◌, List, [], ◌∷◌, Option, none, some, if◌then◌else◌,
}
use go_proxy_mux.Prelude.Int.{ℤ, pos, ◌+ℤ◌, ◌-ℤ◌, leb_ℤ, eqb_ℤ}
use go_proxy_mux.Prelude.Bytes.{Bytes, codes, str_eq}
use go_proxy_mux.Prelude.Dict.{lookup, insert, delete}

pub record Limiter : Type 0 where
  pub max_total : ℤ
  pub max_per_key : ℤ
  pub total : ℤ
  pub per_key : List (Bytes × ℤ)

pub record Lease : Type 0 where
  pub key : Bytes
  pub released : Bool

unfoldable pub new_concurrent_limiter : ℤ → ℤ → Limiter
new_concurrent_limiter max_total max_per_key = record {
  max_total = max_total;
  max_per_key = max_per_key;
  total = pos 0;
  per_key = [];
}

-- A missing key reads as 0.
abbrev pub or_zero : Option ℤ → ℤ
or_zero none = pos 0
or_zero (some n) = n

-- `l.perKey[key]`
unfoldable pub count : Limiter → Bytes → ℤ
count l key = or_zero (lookup key l.per_key)

-- The empty key counts as "unknown".
unfoldable pub normal_key : Bytes → Bytes
normal_key key = if str_eq key [] then codes "unknown" else key

unfoldable pub is_full : Limiter → Bytes → Bool
is_full l key = leb_ℤ l.max_total l.total || leb_ℤ l.max_per_key (count l key)

unfoldable pub add_one : Limiter → Bytes → Limiter
add_one l key = record l {
  total = l.total +ℤ pos 1;
  per_key = insert key (count l key +ℤ pos 1) l.per_key;
}

unfoldable pub try_acquire : Limiter → Bytes → Limiter × Option Lease
try_acquire l given =
    let key = normal_key given in
    if is_full l key
    then (l, none)
    else (add_one l key, some (record { key = key; released = false }))

-- `l.perKey[key]--`, and the entry goes when it reaches 0.
drop_one : Bytes → ℤ → List (Bytes × ℤ) → List (Bytes × ℤ)
drop_one key left m = if eqb_ℤ left (pos 0) then delete key m else insert key left m

-- The body under `once.Do`.
unfoldable pub subtract_one : Limiter → Bytes → Limiter
unfolding drop_one
subtract_one l key = record l {
  total = l.total -ℤ pos 1;
  per_key = drop_one key (count l key -ℤ pos 1) l.per_key;
}

-- A call of the release closure.
unfoldable pub release : Limiter → Lease → Limiter × Lease
release l lease =
    if lease.released
    then (l, lease)
    else (subtract_one l lease.key, record lease { released = true })
