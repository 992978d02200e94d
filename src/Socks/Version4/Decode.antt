-- ===== src/Socks/Version4/Decode.antt =====
-- internal/socks/socks.go: a SOCKS4 and SOCKS4a server's reading of a CONNECT request, from the
-- protocol: the independent description that the request of connect4 is held to.
use go_proxy_mux.Prelude.{
  ℕ, ◌+◌, ◌*◌, ◌/◌, ◌%◌, ◌<◌, ◌≡◌, ◌≢◌, false, ◌&&◌, [], ◌∷◌, ◌++◌, Option, none, some, arith, ◌==◌,
  if◌then◌else◌, ap, ◌∙◌,
}
use mathlib.Core.List.{append_assoc}
use go_proxy_mux.Prelude.Bytes.{Bytes}
use go_proxy_mux.Net.Cut.{cut-append}
use go_proxy_mux.Net.{contains, cut}
use go_proxy_mux.Socks.Wire.{ok}
use go_proxy_mux.Socks.Version4.{IpAddress, ipv4, ipv6, is_reserved, address4, name4, request4}

pub record Request : Type 0 where
  pub port : ℕ
  pub address : Bytes
  pub username : Bytes
  pub name : Option Bytes

finish : ℕ → Bytes → Bytes → Option (Bytes × Bytes) → Option (Request × Bytes)
finish port address username none = none
finish port address username (some (name, rest)) =
    some (record { port = port; address = address; username = username; name = some name }, rest)

read_name : ℕ → ℕ → ℕ → ℕ → ℕ → Option (Bytes × Bytes) → Option (Request × Bytes)
unfolding finish
read_name port a b c d none = none
read_name port a b c d (some (username, rest)) =
    if is_reserved a b c d
    then finish port (a ∷ b ∷ c ∷ d ∷ []) username (cut 0 rest)
    else some (
      record { port = port; address = a ∷ b ∷ c ∷ d ∷ []; username = username; name = none },
      rest,
    )

-- Version 4, command 1, the port, the address, the user and 0, and after an address 0.0.0.x the
-- hostname and 0; with what follows.
pub decode : Bytes → Option (Request × Bytes)
unfolding read_name
decode (version ∷ command ∷ high ∷ low ∷ a ∷ b ∷ c ∷ d ∷ rest) =
    if version == 4 && command == 1 then read_name (high * 256 + low) a b c d (cut 0 rest) else none
decode _ = none

-- The address and the name that a destination stands for.
abbrev pub address_of : Option IpAddress → Bytes
address_of none = 0 ∷ 0 ∷ 0 ∷ 1 ∷ []
address_of (some (ipv4 a b c d)) = a ∷ b ∷ c ∷ d ∷ []
address_of (some (ipv6 bytes)) = bytes

abbrev pub name_of : Option IpAddress → Bytes → Option Bytes
name_of none host = some host
name_of (some address) host = none

address4-ok :
    (ip : Option IpAddress) (host address : Bytes)
    → address4 ip host ≡ ok address
    → address ≡ address_of ip
unfolding address4
address4-ok none host address e = ground arith
address4-ok (some (ipv4 a b c d)) host address e = ground arith
address4-ok (some (ipv6 bytes)) host address e = absurd (ground arith)

address4-reserved :
    (a b c d : ℕ) (host address : Bytes)
    → address4 (some (ipv4 a b c d)) host ≡ ok address
    → is_reserved a b c d ≡ false
unfolding address4
address4-reserved a b c d host address e = ground arith

no_ipv6 : (bytes host address : Bytes) → address4 (some (ipv6 bytes)) host ≢ ok address
unfolding address4
no_ipv6 bytes host address e = cc

port_bytes : (port : ℕ) → port < 65536 → port / 256 % 256 * 256 + port % 256 ≡ port
port_bytes port h = omega arith

cut_terminated :
    (s after rest : Bytes)
    → contains 0 s ≡ false
    → cut 0 ((s ++ 0 ∷ after) ++ rest) ≡ some (s, after ++ rest)
cut_terminated s after rest h =
    ap (cut 0) (append_assoc s (0 ∷ after) rest) ∙ cut-append 0 s (after ++ rest) h

-- A server reads back from the request the port, the user and the destination, whether that was an
-- IPv4 address or a hostname, and no byte of what follows, where neither text holds a zero byte.
pub decode-request4 :
    (ip : Option IpAddress) (host : Bytes) (port : ℕ) (address username rest : Bytes)
    → address4 ip host ≡ ok address
    → port < 65536
    → contains 0 username ≡ false
    → contains 0 host ≡ false
    → decode (request4 port address username (name4 ip host) ++ rest)
      ≡ some (
        record {
          port = port;
          address = address_of ip;
          username = username;
          name = name_of ip host;
        },
        rest,
      )
unfolding name4 request4 decode is_reserved
decode-request4 none host port address username rest e p u h =
    rw (address4-ok none host address e, cut_terminated username (host ++ 0 ∷ []) rest u)
      (rw (cut_terminated host [] rest h, port_bytes port p))
decode-request4 (some (ipv4 a b c d)) host port address username rest e p u h =
    rw (address4-ok (some (ipv4 a b c d)) host address e, cut_terminated username [] rest u)
      (rw (address4-reserved a b c d host address e, port_bytes port p))
decode-request4 (some (ipv6 bytes)) host port address username rest e p u h =
    absurd (no_ipv6 bytes host address e)
