-- ===== src/Socks/Version5.antt =====
-- internal/socks/socks.go: connect5. Go's net.ParseIP is the argument `parse`; the text of an error
-- is not kept.
pub mod Decode
pub mod Sends
pub mod Secrecy
use go_proxy_mux.Prelude.{
  ℕ, ◌+◌, ◌/◌, ◌%◌, Bool, not, ◌||◌, ◌&&◌, List, [], ◌∷◌, ◌++◌, Option, none, some, length, get_or,
  ltb, ◌==◌, if◌then◌else◌,
}
use go_proxy_mux.Prelude.Bytes.{Bytes}
use go_proxy_mux.Socks.Wire.{
  M, invalid, rejected, ◌>>=◌, ◌>>◌, give, done, fail, fail_if, write_all, read_full,
}
use go_proxy_mux.Socks.Version4.{IpAddress, ipv4, ipv6}

pub record Credentials : Type 0 where
  pub enabled : Bool
  pub username : Bytes
  pub password : Bytes

-- An empty text, or one of more than 255 bytes.
abbrev pub bad_length : Bytes → Bool
bad_length s = length s == 0 || ltb 255 (length s)

unfoldable pub bad_credentials : Credentials → Bool
bad_credentials c = c.enabled && (bad_length c.username || bad_length c.password)

unfoldable pub method : Credentials → ℕ
method c = if c.enabled then 2 else 0

unfoldable pub greeting : Credentials → Bytes
greeting c = 5 ∷ 1 ∷ method c ∷ []

unfoldable pub check_method : Credentials → Bytes → M (Unit {0})
check_method c selected =
    fail_if (not (get_or selected 0 0 == 5) || not (get_or selected 1 0 == method c)) invalid

unfoldable pub auth5 : Credentials → Bytes
auth5 c = 1 ∷ (length c.username % 256) ∷ c.username ++ (length c.password % 256) ∷ c.password

unfoldable pub check_auth : Bytes → M (Unit {0})
check_auth response =
    fail_if (not (get_or response 0 0 == 1) || not (get_or response 1 0 == 0)) invalid

unfoldable pub log_in : Credentials → M (Unit {0})
log_in c = do write_all (auth5 c); response ← read_full 2; check_auth response

unfoldable pub authenticate : Credentials → M (Unit {0})
authenticate c = if c.enabled then log_in c else done

unfoldable pub address5 : Option IpAddress → Bytes → Bytes
address5 (some (ipv4 a b c d)) host = 1 ∷ a ∷ b ∷ c ∷ d ∷ []
address5 (some (ipv6 bytes)) host = 4 ∷ bytes
address5 none host = 3 ∷ (length host % 256) ∷ host

unfoldable pub request5 : Option IpAddress → Bytes → ℕ → Bytes
request5 ip host port = 5 ∷ 1 ∷ 0 ∷ address5 ip host ++ (port / 256 % 256) ∷ (port % 256) ∷ []

-- The length of the address in a reply, by its type.
unfoldable pub address_length : ℕ → M ℕ
address_length kind =
    if kind == 1
    then give 4
    else if kind == 4
    then give 16
    else if kind == 3
    then (do bytes ← read_full 1; give (get_or bytes 0 0))
    else fail invalid

-- `io.CopyN(io.Discard, connection, n)`
abbrev pub discard : ℕ → M (Unit {0})
discard n = read_full n >>= λ _. done

unfoldable pub check_head : Bytes → M (Unit {0})
check_head reply = fail_if (not (get_or reply 0 0 == 5) || not (get_or reply 2 0 == 0)) invalid

unfoldable pub check_status : Bytes → M (Unit {0})
check_status reply = fail_if (not (get_or reply 1 0 == 0)) (rejected (get_or reply 1 0))

-- The rest of a reply, behind its first four bytes.
unfoldable pub reply_tail : Bytes → M (Unit {0})
reply_tail reply = do
  check_head reply
  size ← address_length (get_or reply 3 0)
  discard (size + 2)
  check_status reply

unfoldable pub reply5 : M (Unit {0})
reply5 = do reply ← read_full 4; reply_tail reply

unfoldable pub request_step : (Bytes → Option IpAddress) → Bytes → ℕ → M (Unit {0})
request_step parse host port = do write_all (request5 (parse host) host port); reply5

unfoldable pub negotiate : Credentials → M (Unit {0})
negotiate c = do write_all (greeting c); selected ← read_full 2; check_method c selected

unfoldable pub connect5 : (Bytes → Option IpAddress) → Bytes → ℕ → Credentials → M (Unit {0})
connect5 parse host port c = do
  fail_if (bad_credentials c) invalid
  negotiate c
  authenticate c
  request_step parse host port
