-- ===== src/Socks/Dial/Tests.antt =====
-- internal/socks/socks.go: runs of the conversations, and the theorems at concrete inputs.
use go_proxy_mux.Prelude.{
  ℕ, ◌≡◌, refl, ◌≢◌, ◌⊎◌, true, false, [], ◌∷◌, ◌++◌, Option, none, some, arith, length, get_or,
  if◌then◌else◌,
}
use go_proxy_mux.Prelude.Int.{pos}
use go_proxy_mux.Prelude.Bytes.{Bytes, codes, str_eq}
use go_proxy_mux.Net.{contains, split_host_port, atoi}
use go_proxy_mux.Socks.Wire.{Wire, wrote, short_write, ok, err, write_all, read_full}
use go_proxy_mux.Socks.Version4.{IpAddress, ipv4, ipv6, address4, name4, request4, connect4}
use go_proxy_mux.Socks.Version4.Decode
use go_proxy_mux.Socks.Version4.Sends.{granting, connect4_succeeds}
use go_proxy_mux.Socks.Version5
use go_proxy_mux.Socks.Version5.{Credentials, method, greeting, auth5, request5, connect5}
use go_proxy_mux.Socks.Version5.Decode.{decode, kind_of, address_of, decode-request5}
use go_proxy_mux.Socks.Version5.Sends.{auth_says, auth_hears, GrantReply}
use go_proxy_mux.Socks.Version5.Secrecy.{OnlyGreeted, connect5_keeps_secret}
use go_proxy_mux.Socks.Dial
use go_proxy_mux.Socks.Dial.{
  DialOptions, socks4, socks5, check_target, Surroundings, Held, still_open, dial_context,
}
use go_proxy_mux.Socks.Dial.Checks.{Owned, Target, dial_context-Owned, check_target-Target}
use go_proxy_mux.Socks.Dial.Reaches.{Sized, dial_context_reaches, dial_context_reaches4}

-- A parser that knows one address of each kind.
abbrev lo6 : Bytes
lo6 = 0 ∷ 0 ∷ 0 ∷ 0 ∷ 0 ∷ 0 ∷ 0 ∷ 0 ∷ 0 ∷ 0 ∷ 0 ∷ 0 ∷ 0 ∷ 0 ∷ 0 ∷ 1 ∷ []

abbrev parse_sample : Bytes → Option IpAddress
parse_sample host =
    if str_eq host (codes "10.0.0.1")
    then some (ipv4 10 0 0 1)
    else if str_eq host (codes "::1")
    then some (ipv6 lo6)
    else none

parse_sample-Sized : Sized parse_sample
unfolding str_eq
parse_sample-Sized host bytes e = ground arith

abbrev user : Credentials
user = record { enabled = true; username = codes "u"; password = codes "pw" }

abbrev user4 : Credentials
user4 = record { enabled = true; username = codes "u"; password = [] }

abbrev options : DialOptions
options = record { network = codes "tcp"; timeout = pos 5; keep_alive = pos 1 }

-- A SOCKS5 server that takes the credentials and grants, with the bound address 1.2.3.4:80 and
-- two bytes of the tunnel behind.
abbrev wire5 : Wire
wire5 = record {
  incoming = 5 ∷ 2 ∷ 1 ∷ 0 ∷ 5 ∷ 0 ∷ 0 ∷ 1 ∷ 1 ∷ 2 ∷ 3 ∷ 4 ∷ 0 ∷ 80 ∷ 72 ∷ 73 ∷ [];
  sent = [];
  writes = [];
}

abbrev after5 : Wire
after5 = record {
  incoming = 72 ∷ 73 ∷ [];
  sent = 5 ∷ 1 ∷ 2 ∷ 1 ∷ 1 ∷ 117 ∷ 2 ∷ 112 ∷ 119 ∷ 5 ∷ 1 ∷ 0 ∷ 3 ∷ 1 ∷ 104 ∷ 1 ∷ 187 ∷ [];
  writes = [];
}

connect5_run : connect5 parse_sample (codes "h") 443 user wire5 ≡ (after5, ok tt)
unfolding connect5 Version5.bad_credentials Version5.negotiate Version5.greeting Version5.method
    Version5.check_method Version5.authenticate Version5.log_in auth5 Version5.check_auth
    Version5.request_step request5 Version5.address5 Version5.reply5 Version5.reply_tail
    Version5.check_head Version5.address_length Version5.check_status write_all read_full str_eq
connect5_run = refl

abbrev surroundings : Wire → Surroundings
surroundings w = record {
  dialed = some w;
  deadline_fails = false;
  done_after_handshake = false;
  clear_fails = false;
  done_at_end = false;
}

check_target_run :
    check_target parse_sample socks5 (codes "h:443") user options ≡ ok (codes "h", 443)
unfolding check_target Dial.check_options Dial.bad_network Dial.parse_target Dial.bad_host
    Dial.ip_is_ipv6 str_eq contains split_host_port atoi
check_target_run = refl

dial_context_run :
    dial_context parse_sample socks5 (codes "h:443") user options (surroundings wire5)
    ≡ (ok tt, still_open after5)
unfolding dial_context Dial.with_target Dial.with_connection Dial.converse Dial.after_handshake
    Dial.handshake str_eq
dial_context_run = rw (check_target_run, connect5_run)

dial_context_reaches_example :
    (host : Bytes) × (port : ℕ) × (w : Wire) × (request reply : Bytes) × Target parse_sample socks5
      (codes "h:443")
      host
      port
    × ((surroundings wire5).dialed ≡ some w)
    × (after5.sent ≡ w.sent ++ (greeting user ++ (auth_says user ++ request)))
    × (decode request
        ≡ some (
          record {
            kind = kind_of (parse_sample host);
            address = address_of (parse_sample host) host;
            port = port;
          },
          [],
        ))
    × (w.incoming ≡ (5 ∷ method user ∷ [] ++ (auth_hears user ++ reply)) ++ after5.incoming)
    × GrantReply reply
dial_context_reaches_example =
    dial_context_reaches parse_sample (codes "h:443") user options (surroundings wire5) after5
      parse_sample-Sized dial_context_run

check_target-Target_example :
    ((socks5 ≡ socks4) ⊎ (socks5 ≡ socks5))
    × Target parse_sample socks5 (codes "h:443") (codes "h") 443
check_target-Target_example =
    check_target-Target parse_sample socks5 (codes "h:443") user options (codes "h") 443
      check_target_run

dial_context-Owned_example :
    Owned (dial_context parse_sample socks5 (codes "h:443") user options (surroundings wire5))
dial_context-Owned_example =
    dial_context-Owned parse_sample socks5 (codes "h:443") user options (surroundings wire5)

-- A server that offers no authentication although a password was asked for.
abbrev lax : Wire
lax = record { incoming = 5 ∷ 0 ∷ []; sent = []; writes = [] }

lax_refuses : (rest : Bytes) → lax.incoming ≢ 5 ∷ method user ∷ rest
unfolding method
lax_refuses rest e = ground arith

connect5_keeps_secret_example :
    OnlyGreeted user lax (connect5 parse_sample (codes "h") 443 user lax).0
    × ((w' : Wire) → connect5 parse_sample (codes "h") 443 user lax ≢ (w', ok tt))
connect5_keeps_secret_example =
    connect5_keeps_secret parse_sample (codes "h") 443 user lax lax_refuses

decode-request5_example :
    decode (request5 (some (ipv6 lo6)) (codes "::1") 443 ++ 9 ∷ [])
    ≡ some (record { kind = 4; address = lo6; port = 443 }, 9 ∷ [])
decode-request5_example =
    decode-request5 (some (ipv6 lo6)) (codes "::1") 443 (9 ∷ []) (omega arith) refl

-- The first Write takes two bytes, the second fails.
abbrev halting : Wire
halting = record { incoming = []; sent = []; writes = wrote 2 ∷ wrote 0 ∷ [] }

write_all_run :
    write_all (1 ∷ 2 ∷ 3 ∷ []) halting
    ≡ (record { incoming = []; sent = 1 ∷ 2 ∷ []; writes = [] }, err short_write)
unfolding write_all
write_all_run = refl

-- SOCKS4a
abbrev wire4 : Wire
wire4 = granting 0 0 0 0 0 0 (72 ∷ []) []

name_address : address4 none (codes "h") ≡ ok (0 ∷ 0 ∷ 0 ∷ 1 ∷ [])
unfolding address4
name_address = refl

name_address_sample : address4 (parse_sample (codes "h")) (codes "h") ≡ ok (0 ∷ 0 ∷ 0 ∷ 1 ∷ [])
unfolding address4 str_eq
name_address_sample = refl

no_zero_h : contains 0 (codes "h") ≡ false
unfolding contains
no_zero_h = refl

no_zero_u : contains 0 (codes "u") ≡ false
unfolding contains
no_zero_u = refl

connect4_succeeds_example : connect4 parse_sample (codes "h") 443 (codes "u") wire4 ≡ (
  record {
    incoming = 72 ∷ [];
    sent =
        request4 443
          (0 ∷ 0 ∷ 0 ∷ 1 ∷ [])
          (codes "u")
          (name4 (parse_sample (codes "h")) (codes "h"));
    writes = [];
  },
  ok tt,
)
connect4_succeeds_example =
    connect4_succeeds parse_sample (codes "h") 443 (codes "u") (0 ∷ 0 ∷ 0 ∷ 1 ∷ []) 0 0 0 0 0 0
      (72 ∷ []) [] (omega arith) no_zero_u name_address_sample

abbrev after4 : Wire
after4 = record {
  incoming = 72 ∷ [];
  sent = 4 ∷ 1 ∷ 1 ∷ 187 ∷ 0 ∷ 0 ∷ 0 ∷ 1 ∷ 117 ∷ 0 ∷ 104 ∷ 0 ∷ [];
  writes = [];
}

connect4_run : connect4 parse_sample (codes "h") 443 (codes "u") wire4 ≡ (after4, ok tt)
unfolding request4 name4 str_eq
connect4_run = connect4_succeeds_example

check_target_run4 :
    check_target parse_sample socks4 (codes "h:443") user4 options ≡ ok (codes "h", 443)
unfolding check_target Dial.check_options Dial.bad_network Dial.parse_target Dial.bad_host
    Dial.ip_is_ipv6 str_eq contains split_host_port atoi
check_target_run4 = refl

dial_context_run4 :
    dial_context parse_sample socks4 (codes "h:443") user4 options (surroundings wire4)
    ≡ (ok tt, still_open after4)
unfolding dial_context Dial.with_target Dial.with_connection Dial.converse Dial.after_handshake
    Dial.handshake str_eq
dial_context_run4 = rw (check_target_run4, connect4_run)

dial_context_reaches4_example :
    (host : Bytes) × (port : ℕ) × (w : Wire) × (message reply : Bytes) × Target parse_sample socks4
      (codes "h:443")
      host
      port
    × ((surroundings wire4).dialed ≡ some w)
    × (after4.sent ≡ w.sent ++ message)
    × (Decode.decode message
        ≡ some (
          record {
            port = port;
            address = Decode.address_of (parse_sample host);
            username = codes "u";
            name = Decode.name_of (parse_sample host) host;
          },
          [],
        ))
    × (w.incoming ≡ reply ++ after4.incoming)
    × (length reply ≡ 8)
    × (get_or reply 0 0 ≡ 0)
    × (get_or reply 1 0 ≡ 0x5a)
dial_context_reaches4_example =
    dial_context_reaches4 parse_sample (codes "h:443") user4 options (surroundings wire4) after4
      dial_context_run4
