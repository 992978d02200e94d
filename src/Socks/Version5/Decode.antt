-- ===== src/Socks/Version5/Decode.antt =====
-- internal/socks/socks.go: a SOCKS5 server's reading of a CONNECT request and of the user and
-- password, from the protocol (RFC 1928 and 1929): the independent description that the messages
-- of connect5 are held to.
use go_proxy_mux.Prelude.{
  ℕ, ◌+◌, ◌*◌, ◌/◌, ◌%◌, ◌≤◌, ◌<◌, ◌≡◌, subst, true, ◌&&◌, [], ◌∷◌, ◌++◌, Option, none, some, arith,
  length, leb, take, drop, take-append, drop-append, length-append, ◌==◌, if◌then◌else◌,
}
use mathlib.Core.List.{append_assoc}
use go_proxy_mux.Prelude.Bytes.{Bytes}
use go_proxy_mux.Socks.Version4.{IpAddress, ipv4, ipv6}
use go_proxy_mux.Socks.Version5.{Credentials, auth5, address5, request5}

-- The first `n` bytes, and the rest.
split : ℕ → Bytes → Option (Bytes × Bytes)
split n s = if leb n (length s) then some (take n s, drop n s) else none

-- A text behind a byte with its length.
read_text : Bytes → Option (Bytes × Bytes)
unfolding split
read_text [] = none
read_text (n ∷ s) = split n s

with_password : Bytes → Option (Bytes × Bytes) → Option (Bytes × Bytes × Bytes)
with_password username none = none
with_password username (some (password, rest)) = some (username, password, rest)

with_username : Option (Bytes × Bytes) → Option (Bytes × Bytes × Bytes)
unfolding with_password
with_username none = none
with_username (some (username, rest)) = with_password username (read_text rest)

-- Version 1, the user, the password; with what follows.
pub decode_auth : Bytes → Option (Bytes × Bytes × Bytes)
unfolding with_username
decode_auth [] = none
decode_auth (version ∷ rest) = if version == 1 then with_username (read_text rest) else none

-- What a request asks for: the type of the address, its bytes and the port.
pub record Request : Type 0 where
  pub kind : ℕ
  pub address : Bytes
  pub port : ℕ

with_port : ℕ → Option (Bytes × Bytes) → Option (Request × Bytes)
with_port kind (some (address, high ∷ low ∷ rest)) =
    some (record { kind = kind; address = address; port = high * 256 + low }, rest)
with_port kind _ = none

read_address : ℕ → Bytes → Option (Bytes × Bytes)
unfolding split read_text
read_address kind s =
    if kind == 1
    then split 4 s
    else if kind == 4
    then split 16 s
    else if kind == 3
    then read_text s
    else none

-- Version 5, command 1, a zero, the address by its type, and the port; with what follows.
pub decode : Bytes → Option (Request × Bytes)
unfolding with_port read_address
decode (version ∷ command ∷ reserved ∷ kind ∷ rest) =
    if version == 5 && (command == 1 && reserved == 0)
    then with_port kind (read_address kind rest)
    else none
decode _ = none

-- The type and the bytes that a destination stands for.
abbrev pub kind_of : Option IpAddress → ℕ
kind_of none = 3
kind_of (some (ipv4 a b c d)) = 1
kind_of (some (ipv6 bytes)) = 4

abbrev pub address_of : Option IpAddress → Bytes → Bytes
address_of none host = host
address_of (some (ipv4 a b c d)) host = a ∷ b ∷ c ∷ d ∷ []
address_of (some (ipv6 bytes)) host = bytes

-- What fits the protocol: a name of at most 255 bytes, an address of 16.
abbrev pub Fits : Option IpAddress → Bytes → Type 0
Fits none host = length host ≤ 255
Fits (some (ipv4 a b c d)) host = Unit {0}
Fits (some (ipv6 bytes)) host = length bytes ≡ 16

split-append : (s rest : Bytes) → split (length s) (s ++ rest) ≡ some (s, rest)
unfolding split
split-append s rest =
    let enough : leb (length s) (length (s ++ rest)) ≡ true =
      ground (arith, length-append s rest) in
    rw (enough, take-append s rest, drop-append s rest)

read_text-append :
    (s rest : Bytes) → length s ≤ 255 → read_text ((length s % 256) ∷ s ++ rest) ≡ some (s, rest)
unfolding read_text
read_text-append s rest h =
    let small : length s % 256 ≡ length s = omega arith in rw small (split-append s rest)

-- A server reads back from the authentication message the user and the password, and no byte of
-- what follows, where neither is longer than 255 bytes.
pub decode_auth-auth5 :
    (c : Credentials) (rest : Bytes)
    → length c.username ≤ 255
    → length c.password ≤ 255
    → decode_auth (auth5 c ++ rest) ≡ some (c.username, c.password, rest)
unfolding decode_auth auth5
decode_auth-auth5 c rest u p =
    rw (append_assoc c.username ((length c.password % 256) ∷ c.password) rest)
      (rw (read_text-append c.username _ u) (rw (read_text-append c.password rest p)))

-- A server reads back from the request the destination, by its type, and the port, and no byte of
-- what follows, where the destination fits the protocol.
pub decode-request5 :
    (ip : Option IpAddress) (host : Bytes) (port : ℕ) (rest : Bytes)
    → port < 65536
    → Fits ip host
    → decode (request5 ip host port ++ rest)
      ≡ some (record { kind = kind_of ip; address = address_of ip host; port = port }, rest)
unfolding decode request5 address5
decode-request5 none host port rest p fits =
    let value : port / 256 % 256 * 256 + port % 256 ≡ port = omega arith in
    rw (append_assoc host ((port / 256 % 256) ∷ (port % 256) ∷ []) rest)
      (rw (read_text-append host _ fits) (rw value))
decode-request5 (some (ipv4 a b c d)) host port rest p fits =
    let value : port / 256 % 256 * 256 + port % 256 ≡ port = omega arith in
    rw (split-append (a ∷ b ∷ c ∷ d ∷ []) _) (rw value)
decode-request5 (some (ipv6 bytes)) host port rest p fits =
    let value : port / 256 % 256 * 256 + port % 256 ≡ port = omega arith in
    rw (append_assoc bytes ((port / 256 % 256) ∷ (port % 256) ∷ []) rest) (
      rw (subst (λ n. split n (bytes ++ tail) ≡ some (bytes, tail)) fits (split-append bytes tail))
        (rw value))
  where
    tail : Bytes
    tail = (port / 256 % 256) ∷ (port % 256) ∷ rest
