-- ===== src/Socks/Dial/Checks.antt =====
-- internal/socks/socks.go, DialContext: what its checks establish, and who owns the connection.
use go_proxy_mux.Prelude.{
  ℕ, ◌≤◌, ◌≡◌, refl, ap, ◌∙◌, subst, ◌≢◌, ◌⊎◌, Bool, true, false, Bool-cases, inl, inr, not, ◌&&◌,
  ◌||◌, [], Option, none, some, arith, length, ltb,
}
use go_proxy_mux.Prelude.Int.{ℤ, pos, negsuc, pos_part, ltb_ℤ}
use go_proxy_mux.Prelude.Bytes.{Bytes, str_eq, str_eq_iff}
use go_proxy_mux.Net.{contains, split_host_port, atoi}
use go_proxy_mux.Socks.Wire.{Wire, Result, Error, ok, err, invalid, unsupported_destination}
use go_proxy_mux.Socks.Version4.{IpAddress}
use go_proxy_mux.Socks.Version5.{Credentials}
use go_proxy_mux.Socks.Dial.{
  DialOptions, ◌>>=◌, refuse_if, or_fail, socks4, socks5, is_name, bad_host, ip_is_ipv6,
  parse_target, check_options, check_target, Surroundings, Held, still_open, deferred, with_target,
  with_connection, converse, after_handshake, handshake, dial_context,
}

-- Either the dial succeeds and its caller has the open connection, or it fails and no connection
-- is left open: none was made, or it was closed.
abbrev pub Owned : Result (Unit {0}) × Held → Type 0
Owned (ok _, still_open w) = Unit {0}
Owned (ok _, _) = ⊥
Owned (err e, still_open w) = ⊥
Owned (err e, _) = Unit {0}

after_handshake-Owned :
    (s : Surroundings) (r : Result (Unit {0})) (w : Wire)
    → Owned (let (result, success) = after_handshake s r in (result, deferred success w))
unfolding after_handshake
after_handshake-Owned s (err e) w = elim (Bool-cases s.done_after_handshake) [
  | inl d ↦ rw d tt
  | inr d ↦ rw d tt
]
after_handshake-Owned s (ok _) w = elim (Bool-cases s.clear_fails) [
  | inl c ↦ rw c tt
  | inr c ↦ elim (Bool-cases s.done_at_end) [ inl d ↦ rw (c, d) tt | inr d ↦ rw (c, d) tt ]
]

converse-Owned :
    (parse : Bytes → Option IpAddress) (scheme : Bytes) (target : Bytes × ℕ) (c : Credentials)
    (s : Surroundings) (w : Wire)
    → Owned (converse parse scheme target c s w)
unfolding converse
converse-Owned parse scheme (host, port) c s w =
    let r = handshake parse scheme host port c w in
    elim (Bool-cases s.deadline_fails) [
      | inl d ↦ rw d tt
      | inr d ↦ rw d (after_handshake-Owned s r.1 r.0)
    ]

with_connection-Owned :
    (parse : Bytes → Option IpAddress) (scheme : Bytes) (target : Bytes × ℕ) (c : Credentials)
    (s : Surroundings) (dialed : Option Wire)
    → Owned (with_connection parse scheme target c s dialed)
unfolding with_connection
with_connection-Owned parse scheme target c s none = tt
with_connection-Owned parse scheme target c s (some w) = converse-Owned parse scheme target c s w

with_target-Owned :
    (parse : Bytes → Option IpAddress) (scheme : Bytes) (c : Credentials) (s : Surroundings)
    (r : Result (Bytes × ℕ))
    → Owned (with_target parse scheme c s r)
unfolding with_target
with_target-Owned parse scheme c s (err e) = tt
with_target-Owned parse scheme c s (ok target) =
    with_connection-Owned parse scheme target c s s.dialed

-- Whatever fails on the way, DialContext leaves no connection open behind an error, and it gives
-- an open connection when it succeeds.
pub dial_context-Owned :
    (parse : Bytes → Option IpAddress) (scheme target : Bytes) (c : Credentials)
    (options : DialOptions) (s : Surroundings)
    → Owned (dial_context parse scheme target c options s)
unfolding dial_context
dial_context-Owned parse scheme target c options s =
    with_target-Owned parse scheme c s (check_target parse scheme target c options)

>>=-eq-ok :
    {A B : Type 0} (m : Result A) (f : A → Result B) (b : B)
    → (m >>= f) ≡ ok b
    → (a : A) × (m ≡ ok a) × (f a ≡ ok b)
>>=-eq-ok (ok a) f b e = (a, refl, e)
>>=-eq-ok (err x) f b e = absurd (ground arith)

refuse_if-ok : (test : Bool) (x : Error) → refuse_if test x ≡ ok tt → test ≡ false
refuse_if-ok true x e = absurd (ground arith)
refuse_if-ok false x e = refl

or_fail-ok : {A : Type 0} (m : Option A) (x : Error) (a : A) → or_fail m x ≡ ok a → m ≡ some a
or_fail-ok none x a e = absurd (ground arith)
or_fail-ok (some b) x a e = ground arith

-- What DialContext knows of a target before it dials: the text is that host and a decimal port of
-- 1 to 65535, the host has no zero byte and is an address or a name of 1 to 255 bytes, and with
-- SOCKS4 it is no IPv6 address.
pub record Target (parse : Bytes → Option IpAddress) (scheme target host : Bytes) (port : ℕ)
    : Type 0 where
  pub port_text : Bytes
  pub is_split : split_host_port target ≡ some (host, port_text)
  pub is_port : atoi port_text ≡ some (pos port)
  pub at_least_one : 1 ≤ port
  pub at_most : port ≤ 65535
  pub is_filled : host ≢ []
  pub has_no_zero : contains 0 host ≡ false
  pub is_short : parse host ≡ none → length host ≤ 255
  pub is_not_ipv6 : scheme ≡ socks4 → ip_is_ipv6 parse host ≡ false

port_range :
    (p : ℤ)
    → (ltb_ℤ p (pos 1) || ltb_ℤ (pos 65535) p) ≡ false
    → (p ≡ pos (pos_part p)) × (1 ≤ pos_part p) × (pos_part p ≤ 65535)
port_range (pos n) h = (refl, ground arith, ground arith)
port_range (negsuc n) h = absurd (ground arith)

parse_target-ok :
    (target host : Bytes) (port : ℕ)
    → parse_target target ≡ ok (host, port)
    → (port_text : Bytes) × (split_host_port target ≡ some (host, port_text))
      × (atoi port_text ≡ some (pos port))
      × (1 ≤ port)
      × (port ≤ 65535)
      × (host ≢ [])
unfolding parse_target
parse_target-ok target host port e =
    let ((h, port_text), split, e1) = >>=-eq-ok (or_fail (split_host_port target) invalid) _ _ e in
    let (_, filled, e2) = >>=-eq-ok (refuse_if (str_eq h []) invalid) _ _ e1 in
    let (p, read, e3) = >>=-eq-ok (or_fail (atoi port_text) invalid) _ _ e2 in
    let (_, bounded, e4) =
      >>=-eq-ok (refuse_if (ltb_ℤ p (pos 1) || ltb_ℤ (pos 65535) p) invalid) _ _ e3 in
    let (is_pos, low, high) = port_range p (refuse_if-ok _ invalid bounded) in
    let same_host : h ≡ host = ground arith in
    let same_port : pos_part p ≡ port = ground arith in
    (
      port_text,
      or_fail-ok _ invalid _ split ∙ ap (λ x. some (x, port_text)) same_host,
      or_fail-ok _ invalid _ read ∙ ap some (is_pos ∙ ap pos same_port),
      ground arith,
      ground arith,
      λ empty.
          let is_empty : str_eq h [] ≡ true = (str_eq_iff h []).1 (same_host ∙ empty) in
          let kept = refuse_if-ok _ invalid filled in ground arith,
    )

check_options-ok :
    (scheme : Bytes) (options : DialOptions)
    → check_options scheme options ≡ ok tt
    → (scheme ≡ socks4) ⊎ (scheme ≡ socks5)
unfolding check_options
check_options-ok scheme options e =
    let (_, known, e1) =
      >>=-eq-ok (refuse_if (not (str_eq scheme socks4) && not (str_eq scheme socks5)) invalid) _ _
        e in
    let passed = refuse_if-ok _ invalid known in
    elim (Bool-cases (str_eq scheme socks4)) [
      | inl four ↦ inl ((str_eq_iff scheme socks4).0 four)
      | inr other ↦ inr ((str_eq_iff scheme socks5).0 (ground arith))
    ]

short_name : (m : Option IpAddress) (n : ℕ) → (is_name m && ltb 255 n) ≡ false → m ≡ none → n ≤ 255
short_name m n h e = ground arith

bad_host-false :
    (parse : Bytes → Option IpAddress) (host : Bytes)
    → bad_host parse host ≡ false
    → (contains 0 host ≡ false) × (parse host ≡ none → length host ≤ 255)
unfolding bad_host
bad_host-false parse host h = (ground arith, short_name (parse host) (length host) (ground arith))

-- When the checks of DialContext pass, the scheme is one of the two, and what they give for the
-- target text is its host and its port, as the two protocols can represent them: the port is in
-- 1..65535, the host is not empty, has no zero byte and is an address or at most 255 bytes long,
-- and it is no IPv6 address where the scheme is socks4.
pub check_target-Target :
    (parse : Bytes → Option IpAddress) (scheme target : Bytes) (c : Credentials)
    (options : DialOptions) (host : Bytes) (port : ℕ)
    → check_target parse scheme target c options ≡ ok (host, port)
    → ((scheme ≡ socks4) ⊎ (scheme ≡ socks5)) × Target parse scheme target host port
unfolding check_target
check_target-Target parse scheme target c options host port e =
    let (_, optioned, e1) = >>=-eq-ok (check_options scheme options) _ _ e in
    let ((h, p), parsed, e2) = >>=-eq-ok (parse_target target) _ _ e1 in
    let (_, hosted, e3) = >>=-eq-ok (refuse_if (bad_host parse h) unsupported_destination) _ _ e2 in
    let (_, four, e4) =
      >>=-eq-ok (refuse_if (str_eq scheme socks4 && ip_is_ipv6 parse h) unsupported_destination) _ _
        e3 in
    let (_, _, e5) =
      >>=-eq-ok
        (refuse_if (str_eq scheme socks4 && (c.enabled && not (str_eq c.password []))) invalid) _ _
        e4 in
    let same_host : h ≡ host = ground arith in
    let same_port : p ≡ port = ground arith in
    let same : ok (h, p) ≡ ok (host, port) = e5 in
    let (port_text, split, read, low, high, filled) =
      parse_target-ok target host port (parsed ∙ same) in
    let (no_zero, short) = bad_host-false parse host (
      subst (λ x. bad_host parse x ≡ false) same_host
        (refuse_if-ok _ unsupported_destination hosted)) in
    let not_six : (str_eq scheme socks4 && ip_is_ipv6 parse host) ≡ false =
      subst (λ x. (str_eq scheme socks4 && ip_is_ipv6 parse x) ≡ false) same_host
        (refuse_if-ok _ unsupported_destination four) in
    (
      check_options-ok scheme options optioned,
      record {
        port_text = port_text;
        is_split = split;
        is_port = read;
        at_least_one = low;
        at_most = high;
        is_filled = filled;
        has_no_zero = no_zero;
        is_short = short;
        is_not_ipv6 = λ is4. let t = (str_eq_iff scheme socks4).1 is4 in ground arith;
      },
    )
