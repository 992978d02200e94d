-- ===== src/Socks/Version4/Sends.antt =====
-- internal/socks/socks.go, connect4: what a conversation that succeeds was, and that the server's
-- grant is enough for one.
use go_proxy_mux.Prelude.{
  ℕ, ◌≤◌, ◌<◌, ◌≡◌, sym, ap, ◌∙◌, true, false, ◌||◌, [], ◌∷◌, ◌++◌, Option, some, arith, length,
  ltb, leb, get_or,
}
use mathlib.Core.List.{append-nil}
use go_proxy_mux.Prelude.Bytes.{Bytes}
use go_proxy_mux.Net.{contains}
use go_proxy_mux.Socks.Wire.{
  Wire, ok, invalid, rejected, ◌>>=◌, fail_if, lift, write_all, read_full, >>=-eq-ok, lift-ok,
  write_all-ok, read_full-ok, fail_if-ok,
}
use go_proxy_mux.Socks.Version4.{
  IpAddress, address4, name4, request4, check4, reply4, send4, bad_user4, connect4,
}
use go_proxy_mux.Socks.Version4.Decode.{decode, address_of, name_of, decode-request4}

check4-ok :
    (reply : Bytes) (w w' : Wire)
    → check4 reply w ≡ (w', ok tt)
    → (get_or reply 0 0 ≡ 0) × (get_or reply 1 0 ≡ 0x5a) × (w ≡ w')
unfolding check4
check4-ok reply w w' e =
    let (passed, same) = fail_if-ok _ (rejected (get_or reply 1 0)) w w' e in
    (ground arith, ground arith, same)

no_zero_user : (username : Bytes) → bad_user4 username ≡ false → contains 0 username ≡ false
unfolding bad_user4
no_zero_user username h = ground arith

reply4-ok :
    (w w' : Wire)
    → reply4 w ≡ (w', ok tt)
    → (w'.sent ≡ w.sent)
      × (reply : Bytes) × (w.incoming ≡ reply ++ w'.incoming)
      × (length reply ≡ 8)
      × (get_or reply 0 0 ≡ 0)
      × (get_or reply 1 0 ≡ 0x5a)
unfolding reply4
reply4-ok w w' e =
    let (w1, reply, read, e1) = >>=-eq-ok (read_full 8) check4 w w' tt e in
    let (kept, consumed, size) = read_full-ok 8 w w1 reply read in
    let (version, status, same) = check4-ok reply w1 w' e1 in
    (rw (← same) kept, reply, rw (← same) consumed, size, version, status)

send4-ok :
    (parse : Bytes → Option IpAddress) (host : Bytes) (port : ℕ) (username address : Bytes)
    (w w' : Wire)
    → send4 parse host port username address w ≡ (w', ok tt)
    → (w'.sent ≡ w.sent ++ request4 port address username (name4 (parse host) host))
      × (reply : Bytes) × (w.incoming ≡ reply ++ w'.incoming)
      × (length reply ≡ 8)
      × (get_or reply 0 0 ≡ 0)
      × (get_or reply 1 0 ≡ 0x5a)
unfolding send4
send4-ok parse host port username address w w' e =
    let message = request4 port address username (name4 (parse host) host) in
    let (w1, _, wrote, e1) = >>=-eq-ok (write_all message) (λ _. reply4) w w' tt e in
    let (sent, unread) = write_all-ok message w w1 wrote in
    let (kept, reply, consumed, size, version, status) = reply4-ok w1 w' e1 in
    (kept ∙ sent, reply, sym unread ∙ consumed, size, version, status)

-- When connect4 succeeds it has sent one message, in which a server reads the port, the user and
-- the destination; the server has granted it in a reply of eight bytes; and what the server sent
-- behind the reply is left for the tunnel.
pub connect4-Granted :
    (parse : Bytes → Option IpAddress) (host : Bytes) (port : ℕ) (username : Bytes) (w w' : Wire)
    → port < 65536
    → contains 0 host ≡ false
    → connect4 parse host port username w ≡ (w', ok tt)
    → (message reply : Bytes) × (w'.sent ≡ w.sent ++ message)
      × (decode message
          ≡ some (
            record {
              port = port;
              address = address_of (parse host);
              username = username;
              name = name_of (parse host) host;
            },
            [],
          ))
      × (w.incoming ≡ reply ++ w'.incoming)
      × (length reply ≡ 8)
      × (get_or reply 0 0 ≡ 0)
      × (get_or reply 1 0 ≡ 0x5a)
unfolding connect4
connect4-Granted parse host port username w w' p h e =
    let ip = parse host in
    let send = send4 parse host port username in
    let (w1, _, guarded, e1) =
      >>=-eq-ok (fail_if (bad_user4 username) invalid) (λ _. lift (address4 ip host) >>= send) w w'
        tt e in
    let (passed, same) = fail_if-ok (bad_user4 username) invalid w w1 guarded in
    let (w2, address, addressed, e2) = >>=-eq-ok (lift (address4 ip host)) send w1 w' tt e1 in
    let (sent, reply, consumed, size, version, status) =
      send4-ok parse host port username address w2 w' e2 in
    let no_zero : contains 0 username ≡ false = no_zero_user username passed in
    let (there, fits) = lift-ok (address4 ip host) w1 w2 address addressed in
    let start : w ≡ w2 = same ∙ there in
    (
      request4 port address username (name4 ip host),
      reply,
      rw start sent,
      ap decode (sym (append-nil _))
          ∙ decode-request4 ip host port address username [] fits p no_zero h,
      rw start consumed,
      size,
      version,
      status,
    )

abbrev pub granting : ℕ → ℕ → ℕ → ℕ → ℕ → ℕ → Bytes → Bytes → Wire
granting a b c d e f rest sent = record {
  incoming = 0 ∷ 0x5a ∷ a ∷ b ∷ c ∷ d ∷ e ∷ f ∷ rest;
  sent = sent;
  writes = [];
}

reply4-granting :
    (a b c d e f : ℕ) (rest sent : Bytes)
    → reply4 (granting a b c d e f rest sent)
      ≡ (record { incoming = rest; sent = sent; writes = [] }, ok tt)
unfolding reply4 check4 read_full
reply4-granting a b c d e f rest sent =
    let enough : leb 8 (length (0 ∷ 0x5a ∷ a ∷ b ∷ c ∷ d ∷ e ∷ f ∷ rest)) ≡ true = ground arith in
    rw enough

-- Where the user and the destination fit the protocol, a server that takes the request and grants
-- it in eight bytes, whatever the last six, makes connect4 succeed.
pub connect4_succeeds :
    (parse : Bytes → Option IpAddress) (host : Bytes) (port : ℕ) (username address : Bytes)
    (a b c d e f : ℕ) (rest sent : Bytes)
    → length username ≤ 255
    → contains 0 username ≡ false
    → address4 (parse host) host ≡ ok address
    → connect4 parse host port username (granting a b c d e f rest sent) ≡ (
      record {
        incoming = rest;
        sent = sent ++ request4 port address username (name4 (parse host) host);
        writes = [];
      },
      ok tt,
    )
unfolding connect4 send4 write_all request4 bad_user4
connect4_succeeds parse host port username address a b c d e f rest sent short zero fits =
    let test : (ltb 255 (length username) || contains 0 username) ≡ false = ground arith in
    rw (test, fits) (reply4-granting a b c d e f rest _)
