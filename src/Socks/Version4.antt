-- ===== src/Socks/Version4.antt =====
-- internal/socks/socks.go: connect4. Go's net.ParseIP is the argument `parse`.
pub mod Decode
pub mod Sends
use go_proxy_mux.Prelude.{
  ℕ, ◌+◌, ◌/◌, ◌%◌, Bool, not, ◌&&◌, ◌||◌, List, [], ◌∷◌, ◌++◌, Option, none, some, length, get_or,
  ltb, ◌==◌, if◌then◌else◌,
}
use go_proxy_mux.Prelude.Bytes.{Bytes}
use go_proxy_mux.Net.{contains}
use go_proxy_mux.Socks.Wire.{
  M, Result, ok, err, unsupported_destination, invalid, rejected, ◌>>=◌, ◌>>◌, fail_if, lift,
  write_all, read_full,
}

-- A parsed address: `To4` gives the four bytes of the first kind, and nil for the second.
pub data IpAddress : Type 0 where
  ipv4 : ℕ → ℕ → ℕ → ℕ → IpAddress
  ipv6 : Bytes → IpAddress

-- 0.0.0.x with x not 0 announces a hostname.
unfoldable pub is_reserved : ℕ → ℕ → ℕ → ℕ → Bool
is_reserved a b c d = a == 0 && (b == 0 && (c == 0 && not (d == 0)))

-- Bytes 4 to 7 of the request.
unfoldable pub address4 : Option IpAddress → Bytes → Result Bytes
address4 (some (ipv6 bytes)) host = err unsupported_destination
address4 (some (ipv4 a b c d)) host =
    if is_reserved a b c d then err unsupported_destination else ok (a ∷ b ∷ c ∷ d ∷ [])
address4 none host =
    if length host == 0 || ltb 255 (length host)
    then err unsupported_destination
    else ok (0 ∷ 0 ∷ 0 ∷ 1 ∷ [])

-- The hostname of SOCKS4a, at the end of the request.
unfoldable pub name4 : Option IpAddress → Bytes → Bytes
name4 none host = host ++ 0 ∷ []
name4 (some address) host = []

unfoldable pub request4 : ℕ → Bytes → Bytes → Bytes → Bytes
request4 port address username name =
    4 ∷ 1 ∷ (port / 256 % 256) ∷ (port % 256) ∷ address ++ (username ++ 0 ∷ name)

unfoldable pub check4 : Bytes → M (Unit {0})
check4 reply =
    fail_if (not (get_or reply 0 0 == 0) || not (get_or reply 1 0 == 0x5a))
      (rejected (get_or reply 1 0))

unfoldable pub reply4 : M (Unit {0})
reply4 = do reply ← read_full 8; check4 reply

-- The request and the reply, once the destination is known to fit.
unfoldable pub send4 : (Bytes → Option IpAddress) → Bytes → ℕ → Bytes → Bytes → M (Unit {0})
send4 parse host port username address = do
  write_all (request4 port address username (name4 (parse host) host))
  reply4

unfoldable pub bad_user4 : Bytes → Bool
bad_user4 username = ltb 255 (length username) || contains 0 username

unfoldable pub connect4 : (Bytes → Option IpAddress) → Bytes → ℕ → Bytes → M (Unit {0})
connect4 parse host port username = do
  fail_if (bad_user4 username) invalid
  address ← lift (address4 (parse host) host)
  send4 parse host port username address
