-- ===== src/Connect/Status.antt =====
-- internal/proxy/connect.go: readConnectStatus and readLimitedLine. What the reader's ReadLine gives
-- is a list: a part of a line, and whether more of that line follows; at its end ReadLine fails.
-- Go's strings.Fields is the argument `fields`. The kinds of error are not kept.
pub mod Lines
use go_proxy_mux.Prelude.{
  ℕ, zero, suc, Bool, true, false, not, ◌&&◌, ◌||◌, List, [], ◌∷◌, ◌++◌, Option, none, some, length,
  if◌then◌else◌,
}
use go_proxy_mux.Prelude.Int.{ℤ, pos, pos_part, ◌-ℤ◌, ltb_ℤ}
use go_proxy_mux.Prelude.Bytes.{Bytes, codes, str_eq}
use go_proxy_mux.Net.{contains, atoi}

abbrev pub Part : Type 0
Part = Bytes × Bool

abbrev pub max_header_bytes : ℤ
max_header_bytes = pos 65_536

-- `len(part)`, and two more at the end of a line.
abbrev pub charge : Bytes → Bool → ℤ
charge part more = pos (if more then length part else suc (suc (length part)))

-- The loop of readLimitedLine, with the line so far: the line, what is unread, what remains.
unfoldable pub read_limited_line : Bytes → List Part → ℤ → Option (Bytes × List Part × ℤ)
read_limited_line line [] remaining = none
read_limited_line line ((part, more) ∷ parts) remaining =
    let left = remaining -ℤ charge part more in
    let rest = read_limited_line (line ++ part) parts left in
    if ltb_ℤ left (pos 0) then none else if more then rest else some (line ++ part, parts, left)

abbrev pub after_line :
    (List Part → ℤ → Option (List Part)) → Option (Bytes × List Part × ℤ) → Option (List Part)
after_line again none = none
after_line again (some (line, parts, remaining)) =
    if str_eq line []
    then some parts
    else if contains b':' line
    then again parts remaining
    else none

-- The loop over the header's lines; a round reads at least one part, of which there are at most
-- `fuel`.
unfoldable pub read_headers : ℕ → List Part → ℤ → Option (List Part)
read_headers zero parts remaining = none
read_headers (suc fuel) parts remaining =
    after_line (read_headers fuel) (read_limited_line [] parts remaining)

abbrev pub in_range : Option ℤ → Option ℕ
in_range none = none
in_range (some n) = if ltb_ℤ n (pos 100) || ltb_ℤ (pos 599) n then none else some (pos_part n)

-- The status in the fields of the first line.
unfoldable pub status_of : List Bytes → Option ℕ
status_of (version ∷ status ∷ rest) =
    if not (str_eq version (codes "HTTP/1.1")) && not (str_eq version (codes "HTTP/1.0"))
    then none
    else in_range (atoi status)
status_of _ = none

abbrev pub with_rest : ℕ → Option (List Part) → Option (ℕ × List Part)
with_rest status none = none
with_rest status (some parts) = some (status, parts)

abbrev pub then_headers : List Part → ℤ → Option ℕ → Option (ℕ × List Part)
then_headers parts remaining none = none
then_headers parts remaining (some status) =
    with_rest status (read_headers (suc (length parts)) parts remaining)

abbrev pub after_status_line :
    (Bytes → List Bytes) → Option (Bytes × List Part × ℤ) → Option (ℕ × List Part)
after_status_line fields none = none
after_status_line fields (some (line, parts, remaining)) =
    then_headers parts remaining (status_of (fields line))

-- The status, and what is left for the tunnel.
unfoldable pub read_connect_status : (Bytes → List Bytes) → List Part → Option (ℕ × List Part)
read_connect_status fields parts =
    after_status_line fields (read_limited_line [] parts max_header_bytes)
