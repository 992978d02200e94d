-- ===== src/Socks/Dial.antt =====
-- internal/socks/socks.go: DialContext. What the dialer, the deadlines and the context do is given
-- beforehand; the text of an error is not kept.
pub mod Checks
pub mod Reaches
mod Tests
use go_proxy_mux.Prelude.{
  ℕ, ◌≡◌, Bool, true, false, not, ◌&&◌, ◌||◌, List, [], ◌∷◌, Option, none, some, length, ltb, ◌==◌,
  if◌then◌else◌,
}
use go_proxy_mux.Prelude.Int.{ℤ, pos, pos_part, ltb_ℤ, leb_ℤ}
use go_proxy_mux.Prelude.Bytes.{Bytes, codes, str_eq}
use go_proxy_mux.Net.{contains, split_host_port, atoi}
use go_proxy_mux.Socks.Wire.{
  Wire, M, Error, Result, ok, err, network, unsupported_destination, invalid, context_done,
}
use go_proxy_mux.Socks.Version4.{IpAddress, ipv4, ipv6, connect4}
use go_proxy_mux.Socks.Version5.{Credentials, connect5}

pub record DialOptions : Type 0 where
  pub network : Bytes
  pub timeout : ℤ
  pub keep_alive : ℤ

infixl 5 ◌>>=◌ ◌>>◌
abbrev pub ◌>>=◌ : {A B : Type 0} → Result A → (A → Result B) → Result B
ok a >>= f = f a
err e >>= f = err e

abbrev pub ◌>>◌ : {B : Type 0} → Result (Unit {0}) → Result B → Result B
m >> k = m >>= λ _. k

-- `if test { return nil, err }`
abbrev pub refuse_if : Bool → Error → Result (Unit {0})
refuse_if true e = err e
refuse_if false e = ok tt

abbrev pub or_fail : {A : Type 0} → Option A → Error → Result A
or_fail none e = err e
or_fail (some a) e = ok a

abbrev pub socks4 : Bytes
socks4 = codes "socks4"

abbrev pub socks5 : Bytes
socks5 = codes "socks5"

unfoldable pub bad_network : Bytes → Bool
bad_network n =
    not (str_eq n (codes "tcp")) && (not (str_eq n (codes "tcp4")) && not (str_eq n (codes "tcp6")))

abbrev is_ipv6 : Option IpAddress → Bool
is_ipv6 (some (ipv6 bytes)) = true
is_ipv6 (some (ipv4 a b c d)) = false
is_ipv6 none = false

abbrev pub is_name : Option IpAddress → Bool
is_name none = true
is_name (some address) = false

-- `ipIsIPv6`
unfoldable pub ip_is_ipv6 : (Bytes → Option IpAddress) → Bytes → Bool
ip_is_ipv6 parse host = is_ipv6 (parse host)

unfoldable pub bad_host : (Bytes → Option IpAddress) → Bytes → Bool
bad_host parse host = contains 0 host || (is_name (parse host) && ltb 255 (length host))

-- The host and the port of the target.
unfoldable pub parse_target : Bytes → Result (Bytes × ℕ)
parse_target target = do
  (host, port_text) ← or_fail (split_host_port target) invalid
  refuse_if (str_eq host []) invalid
  port ← or_fail (atoi port_text) invalid
  refuse_if (ltb_ℤ port (pos 1) || ltb_ℤ (pos 65535) port) invalid
  ok (host, pos_part port)

unfoldable pub check_options : Bytes → DialOptions → Result (Unit {0})
check_options scheme options = do
  refuse_if (not (str_eq scheme socks4) && not (str_eq scheme socks5)) invalid
  refuse_if (leb_ℤ options.timeout (pos 0)) invalid
  refuse_if (bad_network options.network) invalid

-- All that is checked before the proxy is dialled.
unfoldable pub check_target :
    (Bytes → Option IpAddress) → Bytes → Bytes → Credentials → DialOptions → Result (Bytes × ℕ)
check_target parse scheme target c options = do
  check_options scheme options
  (host, port) ← parse_target target
  refuse_if (bad_host parse host) unsupported_destination
  refuse_if (str_eq scheme socks4 && ip_is_ipv6 parse host) unsupported_destination
  refuse_if (str_eq scheme socks4 && (c.enabled && not (str_eq c.password []))) invalid
  ok (host, port)

-- What happens around the conversation: whether the dial gives a connection, whether setting and
-- clearing the deadline fails, and whether the context is done at the two places that ask.
pub record Surroundings : Type 0 where
  pub dialed : Option Wire
  pub deadline_fails : Bool
  pub done_after_handshake : Bool
  pub clear_fails : Bool
  pub done_at_end : Bool

-- The connection that was made, and whether it was closed.
pub data Held : Type 0 where
  none_made : Held
  still_open : Wire → Held
  shut : Wire → Held

-- The deferred function: it closes unless `success` was set.
abbrev pub deferred : Bool → Wire → Held
deferred success w = if success then still_open w else shut w

unfoldable pub handshake :
    (Bytes → Option IpAddress) → Bytes → Bytes → ℕ → Credentials → M (Unit {0})
handshake parse scheme host port c =
    if str_eq scheme socks4
    then connect4 parse host port (if c.enabled then c.username else [])
    else connect5 parse host port c

-- Behind the handshake; the Bool is `success`.
unfoldable pub after_handshake : Surroundings → Result (Unit {0}) → Result (Unit {0}) × Bool
after_handshake s (err e) =
    if s.done_after_handshake then (err context_done, false) else (err e, false)
after_handshake s (ok _) =
    if s.clear_fails
    then (err network, false)
    else if s.done_at_end
    then (err context_done, false)
    else (ok tt, true)

unfoldable pub converse :
    (Bytes → Option IpAddress)
    → Bytes
    → Bytes × ℕ
    → Credentials
    → Surroundings
    → Wire
    → Result (Unit {0}) × Held
unfolding after_handshake
converse parse scheme (host, port) c s w =
    if s.deadline_fails
    then (err network, deferred false w)
    else (let (w', r) = handshake parse scheme host port c w in
        let (result, success) = after_handshake s r in (result, deferred success w'))

unfoldable pub with_connection :
    (Bytes → Option IpAddress)
    → Bytes
    → Bytes × ℕ
    → Credentials
    → Surroundings
    → Option Wire
    → Result (Unit {0}) × Held
unfolding converse
with_connection parse scheme target c s none = (err network, none_made)
with_connection parse scheme target c s (some w) = converse parse scheme target c s w

unfoldable pub with_target :
    (Bytes → Option IpAddress)
    → Bytes
    → Credentials
    → Surroundings
    → Result (Bytes × ℕ)
    → Result (Unit {0}) × Held
unfolding with_connection
with_target parse scheme c s (err e) = (err e, none_made)
with_target parse scheme c s (ok target) = with_connection parse scheme target c s s.dialed

unfoldable pub dial_context :
    (Bytes → Option IpAddress)
    → Bytes
    → Bytes
    → Credentials
    → DialOptions
    → Surroundings
    → Result (Unit {0}) × Held
unfolding with_target
dial_context parse scheme target c options s =
    with_target parse scheme c s (check_target parse scheme target c options)
