-- ===== src/Socks/Dial/Reaches.antt =====
-- internal/socks/socks.go, DialContext: which destination the proxy is asked for.
use go_proxy_mux.Prelude.{
  ℕ, ◌≤◌, ◌≡◌, refl, sym, ap, ◌∙◌, Bool, Bool-cases, inl, inr, [], ◌∷◌, ◌++◌, Option, none, some,
  arith, length, if◌then◌else◌, get_or,
}
use mathlib.Core.List.{append-nil}
use go_proxy_mux.Prelude.Bytes.{Bytes, str_eq}
use go_proxy_mux.Socks.Wire.{Wire, Result, ok, err}
use go_proxy_mux.Socks.Version4.{IpAddress, ipv4, ipv6}
use go_proxy_mux.Socks.Version4.Decode
use go_proxy_mux.Socks.Version4.Sends.{connect4-Granted}
use go_proxy_mux.Socks.Version5.{Credentials, method, greeting, request5}
use go_proxy_mux.Socks.Version5.Decode.{decode, kind_of, address_of, Fits, decode-request5}
use go_proxy_mux.Socks.Version5.Sends.{auth_says, auth_hears, GrantReply, connect5-Granted}
use go_proxy_mux.Socks.Dial.{
  DialOptions, socks4, socks5, check_target, Surroundings, Held, still_open, deferred, with_target,
  with_connection, converse, after_handshake, handshake, dial_context,
}
use go_proxy_mux.Socks.Dial.Checks.{Target, check_target-Target}

-- What the deferred function leaves behind a result.
abbrev settled : Wire → Result (Unit {0}) × Bool → Result (Unit {0}) × Held
settled w (result, success) = (result, deferred success w)

after_handshake-eq-ok :
    (s : Surroundings) (r : Result (Unit {0})) (w w' : Wire)
    → settled w (after_handshake s r) ≡ (ok tt, still_open w')
    → (r ≡ ok tt) × (w ≡ w')
unfolding after_handshake
after_handshake-eq-ok s (err x) w w' e = absurd (ground arith)
after_handshake-eq-ok s (ok _) w w' e = (refl, ground arith)

converse-eq-ok :
    (parse : Bytes → Option IpAddress) (scheme : Bytes) (host : Bytes) (port : ℕ) (c : Credentials)
    (s : Surroundings) (w w' : Wire)
    → converse parse scheme (host, port) c s w ≡ (ok tt, still_open w')
    → handshake parse scheme host port c w ≡ (w', ok tt)
unfolding converse
converse-eq-ok parse scheme host port c s w w' e =
    let r = handshake parse scheme host port c w in
    elim (Bool-cases s.deadline_fails) [
      | inl d ↦ let e' = rw d at e in absurd (ground arith)
      | inr d ↦ let (passed, same) = after_handshake-eq-ok s r.1 r.0 w' (rw d at e) in ground arith
    ]

with_connection-eq-ok :
    (parse : Bytes → Option IpAddress) (scheme : Bytes) (host : Bytes) (port : ℕ) (c : Credentials)
    (s : Surroundings) (dialed : Option Wire) (w' : Wire)
    → with_connection parse scheme (host, port) c s dialed ≡ (ok tt, still_open w')
    → (w : Wire) × (dialed ≡ some w) × (handshake parse scheme host port c w ≡ (w', ok tt))
unfolding with_connection
with_connection-eq-ok parse scheme host port c s none w' e = absurd (ground arith)
with_connection-eq-ok parse scheme host port c s (some w) w' e =
    (w, refl, converse-eq-ok parse scheme host port c s w w' e)

with_target-eq-ok :
    (parse : Bytes → Option IpAddress) (scheme : Bytes) (c : Credentials) (s : Surroundings)
    (r : Result (Bytes × ℕ)) (w' : Wire)
    → with_target parse scheme c s r ≡ (ok tt, still_open w')
    → (host : Bytes) × (port : ℕ) × (w : Wire) × (r ≡ ok (host, port))
      × (s.dialed ≡ some w)
      × (handshake parse scheme host port c w ≡ (w', ok tt))
unfolding with_target
with_target-eq-ok parse scheme c s (err x) w' e = absurd (ground arith)
with_target-eq-ok parse scheme c s (ok (host, port)) w' e =
    let (w, made, did) = with_connection-eq-ok parse scheme host port c s s.dialed w' e in
    (host, port, w, refl, made, did)

-- What net.ParseIP promises: an IPv6 address has 16 bytes.
abbrev pub Sized : (Bytes → Option IpAddress) → Type 0
Sized parse = (host bytes : Bytes) → parse host ≡ some (ipv6 bytes) → length bytes ≡ 16

Fits-of :
    (ip : Option IpAddress) (host : Bytes)
    → (ip ≡ none → length host ≤ 255)
    → ((bytes : Bytes) → ip ≡ some (ipv6 bytes) → length bytes ≡ 16)
    → Fits ip host
Fits-of none host short sized = short refl
Fits-of (some (ipv4 a b c d)) host short sized = tt
Fits-of (some (ipv6 bytes)) host short sized = sized bytes refl

-- When DialContext succeeds with socks5 it gives the connection that was dialled, on which it has
-- sent the greeting, the credentials where there are any, and a request in which a server reads
-- the host and the port that are written in the target, and nothing else; and the proxy has
-- granted that request. It relies on net.ParseIP giving 16 bytes for an IPv6 address.
pub dial_context_reaches :
    (parse : Bytes → Option IpAddress) (target : Bytes) (c : Credentials) (options : DialOptions)
    (s : Surroundings) (w' : Wire)
    → Sized parse
    → dial_context parse socks5 target c options s ≡ (ok tt, still_open w')
    → (host : Bytes) × (port : ℕ) × (w : Wire) × (request reply : Bytes) × Target parse socks5
        target host port
      × (s.dialed ≡ some w)
      × (w'.sent ≡ w.sent ++ (greeting c ++ (auth_says c ++ request)))
      × (decode request
          ≡ some (
            record {
              kind = kind_of (parse host);
              address = address_of (parse host) host;
              port = port;
            },
            [],
          ))
      × (w.incoming ≡ (5 ∷ method c ∷ [] ++ (auth_hears c ++ reply)) ++ w'.incoming)
      × GrantReply reply
unfolding dial_context handshake str_eq
dial_context_reaches parse target c options s w' sized e =
    let (host, port, w, checked, made, did) =
      with_target-eq-ok parse socks5 c s (check_target parse socks5 target c options) w' e in
    let (_, meant) = check_target-Target parse socks5 target c options host port checked in
    let (reply, sent, heard, granted) = connect5-Granted parse host port c w w' did in
    let small = meant.at_most in
    let fits = Fits-of (parse host) host meant.is_short (sized host) in
    (
      host,
      port,
      w,
      request5 (parse host) host port,
      reply,
      meant,
      made,
      sent,
      ap decode (sym (append-nil _)) ∙ decode-request5 (parse host) host port [] (omega arith) fits,
      heard,
      granted,
    )

-- When DialContext succeeds with socks4 it gives the connection that was dialled, on which it has
-- sent one message, in which a server reads the port and the host that are written in the target
-- and the configured user; and the proxy has granted it in a reply of eight bytes.
pub dial_context_reaches4 :
    (parse : Bytes → Option IpAddress) (target : Bytes) (c : Credentials) (options : DialOptions)
    (s : Surroundings) (w' : Wire)
    → dial_context parse socks4 target c options s ≡ (ok tt, still_open w')
    → (host : Bytes) × (port : ℕ) × (w : Wire) × (message reply : Bytes) × Target parse socks4
        target host port
      × (s.dialed ≡ some w)
      × (w'.sent ≡ w.sent ++ message)
      × (Decode.decode message
          ≡ some (
            record {
              port = port;
              address = Decode.address_of (parse host);
              username = if c.enabled then c.username else [];
              name = Decode.name_of (parse host) host;
            },
            [],
          ))
      × (w.incoming ≡ reply ++ w'.incoming)
      × (length reply ≡ 8)
      × (get_or reply 0 0 ≡ 0)
      × (get_or reply 1 0 ≡ 0x5a)
unfolding dial_context handshake str_eq
dial_context_reaches4 parse target c options s w' e =
    let (host, port, w, checked, made, did) =
      with_target-eq-ok parse socks4 c s (check_target parse socks4 target c options) w' e in
    let (_, meant) = check_target-Target parse socks4 target c options host port checked in
    let small = meant.at_most in
    let (message, reply, sent, means, heard, size, version, status) =
      connect4-Granted parse host port (if c.enabled then c.username else []) w w' (omega arith)
        meant.has_no_zero did in
    (host, port, w, message, reply, meant, made, sent, means, heard, size, version, status)
