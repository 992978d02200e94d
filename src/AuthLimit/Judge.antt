-- ===== src/AuthLimit/Judge.antt =====
-- internal/proxy/auth_limit.go: what one address's attempts come to, without the table: the
-- specification that `attempt` refines.
use go_proxy_mux.Prelude.{
  Bool, true, false, List, [], ◌∷◌, Option, none, some, length, if◌then◌else◌,
}
use go_proxy_mux.Prelude.Int.{ℤ, pos, ◌+ℤ◌, ◌-ℤ◌, ltb_ℤ, leb_ℤ}
use go_proxy_mux.Prelude.Bytes.{Bytes}
use go_proxy_mux.AuthLimit.{AuthFailure, Policy, reset, new_entry, is_stale}

-- One more failure on an entry, and how long the block is that follows.
unfoldable pub punish : Policy → AuthFailure → ℤ → AuthFailure × ℤ
punish p e now =
    if leb_ℤ p.max_attempts (e.count +ℤ pos 1)
    then (record e { count = e.count +ℤ pos 1; blocked_until = now +ℤ p.block }, p.block)
    else (record e { count = e.count +ℤ pos 1 }, pos 0)

abbrev pub renewed : Policy → AuthFailure → ℤ → AuthFailure
renewed p e now = if is_stale p e now then reset e now else e

abbrev pub kept : AuthFailure × ℤ → Option AuthFailure × ℤ
kept (e, d) = (some e, d)

-- The entry of an address after an attempt, none if it is forgotten, and the remaining block.
unfoldable pub judge : Policy → Option AuthFailure → Bytes → Bool → ℤ → Option AuthFailure × ℤ
judge p none ip true now = (none, pos 0)
judge p none ip false now = kept (punish p (new_entry ip now) now)
judge p (some e) ip valid now =
    if ltb_ℤ now e.blocked_until
    then (some e, e.blocked_until -ℤ now)
    else if valid
    then (none, pos 0)
    else kept (punish p (renewed p e now) now)

-- Room for at most `bound` entries: the first goes.
unfoldable pub keep_newest : ℤ → List AuthFailure → List AuthFailure
keep_newest bound [] = []
keep_newest bound (e ∷ es) = if ltb_ℤ bound (pos (length (e ∷ es))) then es else e ∷ es

abbrev pub to_list : Option AuthFailure → List AuthFailure
to_list none = []
to_list (some e) = e ∷ []
