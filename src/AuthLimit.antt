-- ===== src/AuthLimit.antt =====
-- internal/proxy/auth_limit.go: failed logins for each source address, and the block that follows.
-- The mutex makes `attempt` one step. A *list.Element is known by the address of the entry that it
-- holds, which is never changed. `none` is a panic: a nil element dereferenced.
pub mod Table
pub mod Agrees
pub mod Judge
pub mod Refines
pub mod Lockout
mod Tests
use go_proxy_mux.Prelude.{
  ℕ, Bool, true, false, not, ◌||◌, List, [], ◌∷◌, ◌++◌, Option, none, some, length, if◌then◌else◌,
}
use go_proxy_mux.Prelude.Int.{ℤ, pos, ◌+ℤ◌, ◌-ℤ◌, ltb_ℤ, leb_ℤ, eqb_ℤ}
use go_proxy_mux.Prelude.Bytes.{Bytes, codes, str_eq}
use go_proxy_mux.Prelude.Dict.{lookup, insert, delete}
use go_proxy_mux.Config.{AuthConfig}

pub record AuthFailure : Type 0 where
  pub ip : Bytes
  pub count : ℤ
  pub window_start : ℤ
  pub blocked_until : ℤ

pub record Policy : Type 0 where
  pub max_attempts : ℤ
  pub window : ℤ
  pub block : ℤ
  pub max_ips : ℤ

pub record AuthFailureLimiter : Type 0 where
  pub policy : Policy
  pub open policy use *
  pub by_ip : List (Bytes × Bytes)
  pub oldest_first : List AuthFailure

unfoldable pub new_auth_failure_limiter : AuthConfig → AuthFailureLimiter
new_auth_failure_limiter cfg = record {
  policy = record {
    max_attempts = cfg.max_failed_attempts;
    window = cfg.failure_window;
    block = cfg.block_duration;
    max_ips = cfg.max_tracked_ips;
  };
  by_ip = [];
  oldest_first = [];
}

infixl 5 ◌>>=◌
abbrev ◌>>=◌ {ℓ κ} : {A : Type ℓ} {B : Type κ} → Option A → (A → Option B) → Option B
none >>= f = none
some a >>= f = f a

-- `element.Value`
unfoldable pub find : Bytes → List AuthFailure → Option AuthFailure
find h [] = none
find h (e ∷ es) = if str_eq e.ip h then some e else find h es

-- `oldestFirst.Remove(element)`
unfoldable pub remove : Bytes → List AuthFailure → List AuthFailure
remove h [] = []
remove h (e ∷ es) = if str_eq e.ip h then es else e ∷ remove h es

-- A write through the pointer to an entry.
unfoldable pub replace : AuthFailure → List AuthFailure → List AuthFailure
replace e' [] = []
replace e' (e ∷ es) = if str_eq e.ip e'.ip then e' ∷ es else e ∷ replace e' es

-- `oldestFirst.Front()`
front : List AuthFailure → Option AuthFailure
front [] = none
front (e ∷ es) = some e

-- An address with no text counts as "unknown".
unfoldable pub normal_ip : Bytes → Bytes
normal_ip ip = if str_eq ip [] then codes "unknown" else ip

-- A new window.
abbrev pub reset : AuthFailure → ℤ → AuthFailure
reset e now = record e { count = pos 0; window_start = now; blocked_until = pos 0 }

-- `!entry.blockedUntil.IsZero() || now.Sub(entry.windowStart) >= l.window`
unfoldable pub is_stale : Policy → AuthFailure → ℤ → Bool
is_stale p e now = not (eqb_ℤ e.blocked_until (pos 0)) || leb_ℤ p.window (now -ℤ e.window_start)

-- The end of `attempt`: one more failure, and a block at the limit.
count_failure : AuthFailureLimiter → AuthFailure → ℤ → AuthFailureLimiter × ℤ
unfolding replace
count_failure l e now =
    let counted = record e { count = e.count +ℤ pos 1 } in
    if leb_ℤ l.max_attempts counted.count
    then (
      record l {
        oldest_first = replace (record counted { blocked_until = now +ℤ l.block }) l.oldest_first;
      },
      l.block,
    )
    else (record l { oldest_first = replace counted l.oldest_first }, pos 0)

-- `attempt` for an address that has an element, which is at the back by now.
known : AuthFailureLimiter → Bytes → Bytes → Bool → ℤ → AuthFailure → AuthFailureLimiter × ℤ
unfolding count_failure
known l ip element valid now entry =
    if ltb_ℤ now entry.blocked_until
    then (l, entry.blocked_until -ℤ now)
    else if valid
    then (
      record l { oldest_first = remove element l.oldest_first; by_ip = delete ip l.by_ip },
      pos 0,
    )
    else count_failure l (if is_stale l.policy entry now then reset entry now else entry) now

-- Room for a new address: the oldest goes when the table is full.
make_room : AuthFailureLimiter → Option AuthFailureLimiter
unfolding front
make_room l =
    if leb_ℤ l.max_ips (pos (length l.by_ip))
    then (do
      oldest ← front l.oldest_first
      some (record l {
        by_ip = delete oldest.ip l.by_ip;
        oldest_first = remove oldest.ip l.oldest_first;
      }))
    else some l

abbrev new_entry : Bytes → ℤ → AuthFailure
new_entry ip now = record { ip = ip; count = pos 0; window_start = now; blocked_until = pos 0 }

-- `attempt` for an address that has none.
unknown : AuthFailureLimiter → Bytes → Bool → ℤ → Option (AuthFailureLimiter × ℤ)
unfolding make_room count_failure
unknown l ip valid now = if valid then some (l, pos 0) else (do
  l' ← make_room l
  let entry = new_entry ip now
  some (
      count_failure
        (record l' { by_ip = insert ip ip l'.by_ip; oldest_first = l'.oldest_first ++ entry ∷ [] })
        entry now))

-- `l.byIP[ip]`, and with an element `MoveToBack` and its value.
attempt_at : AuthFailureLimiter → Bytes → Bool → ℤ → Option Bytes → Option (AuthFailureLimiter × ℤ)
unfolding known unknown
attempt_at l ip valid now none = unknown l ip valid now
attempt_at l ip valid now (some element) = do
  entry ← find element l.oldest_first
  let moved = remove element l.oldest_first ++ entry ∷ []
  some (known (record l { oldest_first = moved }) ip element valid now entry)

unfoldable pub attempt : AuthFailureLimiter → Bytes → Bool → ℤ → Option (AuthFailureLimiter × ℤ)
unfolding attempt_at
attempt l given valid now =
    let ip = normal_ip given in attempt_at l ip valid now (lookup ip l.by_ip)
