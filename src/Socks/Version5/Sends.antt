-- ===== src/Socks/Version5/Sends.antt =====
-- internal/socks/socks.go, connect5: what a conversation that succeeds was.
use go_proxy_mux.Prelude.{
  ℕ, ◌+◌, ◌≡◌, refl, sym, ap, ◌∙◌, subst, Bool, true, false, Bool-cases, inl, inr, [], ◌∷◌, ◌++◌,
  Option, arith, length, get_or, ◌==◌, if◌then◌else◌,
}
use mathlib.Core.List.{append-nil, append_assoc}
use go_proxy_mux.Prelude.Bytes.{Bytes}
use go_proxy_mux.Socks.Wire.{
  Wire, M, ok, invalid, rejected, ◌>>=◌, ◌>>◌, done, give, fail_if, write_all, read_full, >>=-eq-ok,
  write_all-ok, read_full-ok, fail_if-ok,
}
use go_proxy_mux.Socks.Version4.{IpAddress}
use go_proxy_mux.Socks.Version5.{
  Credentials, bad_credentials, method, greeting, check_method, auth5, check_auth, log_in,
  authenticate, request5, address_length, discard, check_head, check_status, reply_tail, reply5,
  request_step, negotiate, connect5,
}

pub two_bytes : (s : Bytes) → length s ≡ 2 → s ≡ get_or s 0 0 ∷ get_or s 1 0 ∷ []
two_bytes [] h = absurd (omega arith)
two_bytes (a ∷ []) h = absurd (omega arith)
two_bytes (a ∷ b ∷ []) h = refl
two_bytes (a ∷ b ∷ c ∷ s) h = absurd (omega arith)

four_bytes :
    (s : Bytes) → length s ≡ 4 → s ≡ get_or s 0 0 ∷ get_or s 1 0 ∷ get_or s 2 0 ∷ get_or s 3 0 ∷ []
four_bytes [] h = absurd (omega arith)
four_bytes (a ∷ []) h = absurd (omega arith)
four_bytes (a ∷ b ∷ []) h = absurd (omega arith)
four_bytes (a ∷ b ∷ c ∷ []) h = absurd (omega arith)
four_bytes (a ∷ b ∷ c ∷ d ∷ []) h = refl
four_bytes (a ∷ b ∷ c ∷ d ∷ e ∷ s) h = absurd (omega arith)

-- The step that sends a text, and the step that reads another.
abbrev Sends : Wire → Bytes → Wire → Type 0
Sends w text w' = (w'.sent ≡ w.sent ++ text) × (w'.incoming ≡ w.incoming)

abbrev Reads : Wire → Bytes → Wire → Type 0
Reads w text w' = (w'.sent ≡ w.sent) × (w.incoming ≡ text ++ w'.incoming)

abbrev Talks : Wire → Bytes → Bytes → Wire → Type 0
Talks w says hears w' = (w'.sent ≡ w.sent ++ says) × (w.incoming ≡ hears ++ w'.incoming)

Talks-then :
    (w w1 w2 : Wire) (s h s' h' : Bytes)
    → Talks w s h w1
    → Talks w1 s' h' w2
    → Talks w (s ++ s') (h ++ h') w2
Talks-then w w1 w2 s h s' h' (e, f) (e', f') = (
  e' ∙ ap (λ t. t ++ s') e ∙ append_assoc w.sent s s',
  f ∙ ap (λ t. h ++ t) f' ∙ sym (append_assoc h h' w2.incoming),
)

Sends-Reads : (w w1 w2 : Wire) (s h : Bytes) → Sends w s w1 → Reads w1 h w2 → Talks w s h w2
Sends-Reads w w1 w2 s h (e, f) (e', f') = (e' ∙ e, sym f ∙ f')

negotiate-ok :
    (c : Credentials) (w w' : Wire)
    → negotiate c w ≡ (w', ok tt)
    → Talks w (greeting c) (5 ∷ method c ∷ []) w'
unfolding negotiate check_method
negotiate-ok c w w' e =
    let (w1, _, wrote, e1) =
      >>=-eq-ok (write_all (greeting c)) (λ _. read_full 2 >>= check_method c) w w' tt e in
    let (w2, selected, read, e2) = >>=-eq-ok (read_full 2) (check_method c) w1 w' tt e1 in
    let (passed, same) = fail_if-ok _ invalid w2 w' e2 in
    let (kept, consumed, size) = read_full-ok 2 w1 w2 selected read in
    let first : get_or selected 0 0 ≡ 5 = ground arith in
    let second : get_or selected 1 0 ≡ method c = ground arith in
    let bytes : selected ≡ 5 ∷ method c ∷ [] = two_bytes selected size ∙ (rw (first, second)) in
    subst (Talks w (greeting c) (5 ∷ method c ∷ [])) same (
      Sends-Reads w w1 w2 (greeting c) (5 ∷ method c ∷ []) (write_all-ok (greeting c) w w1 wrote)
        (kept, consumed ∙ ap (λ t. t ++ w2.incoming) bytes))

abbrev pub auth_says : Credentials → Bytes
auth_says c = if c.enabled then auth5 c else []

abbrev pub auth_hears : Credentials → Bytes
auth_hears c = if c.enabled then 1 ∷ 0 ∷ [] else []

log_in-ok :
    (c : Credentials) (w w' : Wire) → log_in c w ≡ (w', ok tt) → Talks w (auth5 c) (1 ∷ 0 ∷ []) w'
unfolding log_in check_auth
log_in-ok c w w' e =
    let (w1, _, wrote, e1) =
      >>=-eq-ok (write_all (auth5 c)) (λ _. read_full 2 >>= check_auth) w w' tt e in
    let (w2, response, read, e2) = >>=-eq-ok (read_full 2) check_auth w1 w' tt e1 in
    let (passed, same) = fail_if-ok _ invalid w2 w' e2 in
    let (kept, consumed, size) = read_full-ok 2 w1 w2 response read in
    let first : get_or response 0 0 ≡ 1 = ground arith in
    let second : get_or response 1 0 ≡ 0 = ground arith in
    let bytes : response ≡ 1 ∷ 0 ∷ [] = two_bytes response size ∙ (rw (first, second)) in
    subst (Talks w (auth5 c) (1 ∷ 0 ∷ [])) same (
      Sends-Reads w w1 w2 (auth5 c) (1 ∷ 0 ∷ []) (write_all-ok (auth5 c) w w1 wrote)
        (kept, consumed ∙ ap (λ t. t ++ w2.incoming) bytes))

log_in_if-ok :
    (enabled : Bool) (c : Credentials) (w w' : Wire)
    → (if enabled then log_in c else done) w ≡ (w', ok tt)
    → Talks w (if enabled then auth5 c else []) (if enabled then 1 ∷ 0 ∷ [] else []) w'
log_in_if-ok true c w w' e = log_in-ok c w w' e
log_in_if-ok false c w w' e =
    subst (Talks w [] []) (ap (λ t. t.0) e) (sym (append-nil w.sent), refl)

authenticate-ok :
    (c : Credentials) (w w' : Wire)
    → authenticate c w ≡ (w', ok tt)
    → Talks w (auth_says c) (auth_hears c) w'
unfolding authenticate
authenticate-ok c w w' e = log_in_if-ok c.enabled c w w' e

-- How many bytes of an address a reply announces, by its type; a name has its length before it.
pub data Announced (kind : ℕ) (prefix : Bytes) (size : ℕ) : Type 0 where
  for_ipv4 : kind ≡ 1 → prefix ≡ [] → size ≡ 4 → Announced kind prefix size
  for_ipv6 : kind ≡ 4 → prefix ≡ [] → size ≡ 16 → Announced kind prefix size
  for_name : kind ≡ 3 → prefix ≡ size ∷ [] → Announced kind prefix size

one_byte : (s : Bytes) → length s ≡ 1 → s ≡ get_or s 0 0 ∷ []
one_byte [] h = absurd (omega arith)
one_byte (a ∷ []) h = refl
one_byte (a ∷ b ∷ s) h = absurd (omega arith)

length_byte-ok :
    (kind : ℕ) (w w' : Wire) (size : ℕ)
    → kind ≡ 3
    → (read_full 1 >>= λ bytes. give (get_or bytes 0 0)) w ≡ (w', ok size)
    → (prefix : Bytes) × Reads w prefix w' × Announced kind prefix size
length_byte-ok kind w w' size k e =
    let (w1, bytes, read, e1) =
      >>=-eq-ok (read_full 1) (λ bytes. give (get_or bytes 0 0)) w w' size e in
    let (kept, consumed, one) = read_full-ok 1 w w1 bytes read in
    let same = ap (λ t. t.0) e1 in
    let value : get_or bytes 0 0 ≡ size = ground arith in
    (
      bytes,
      subst (Reads w bytes) same (kept, consumed),
      for_name k (one_byte bytes one ∙ ap (λ n. n ∷ []) value),
    )

address_length-ok :
    (kind : ℕ) (w w' : Wire) (size : ℕ)
    → address_length kind w ≡ (w', ok size)
    → (prefix : Bytes) × Reads w prefix w' × Announced kind prefix size
unfolding address_length
address_length-ok kind w w' size e = elim (Bool-cases (kind == 1)) [
  | inl k ↦ let e' = rw k at e in ([], ground arith, for_ipv4 (ground arith) refl (ground arith))
  | inr k ↦ elim (Bool-cases (kind == 4)) [
    | inl k' ↦
        let e' = rw (k, k') at e in ([], ground arith, for_ipv6 (ground arith) refl (ground arith))
    | inr k' ↦ elim (Bool-cases (kind == 3)) [
      | inl k'' ↦ length_byte-ok kind w w' size (ground arith) (rw (k, k', k'') at e)
      | inr k'' ↦ let e' = rw (k, k', k'') at e in absurd (ground arith)
    ]
  ]
]

-- A reply that grants the request: version 5, status 0, a zero, and an address of its announced
-- length with two bytes of port.
pub data GrantReply (reply : Bytes) : Type 0 where
  grant :
      (kind : ℕ) (prefix : Bytes) (size : ℕ) (bytes : Bytes)
      → Announced kind prefix size
      → length bytes ≡ size + 2
      → reply ≡ 5 ∷ 0 ∷ 0 ∷ kind ∷ prefix ++ bytes
      → GrantReply reply

reply_tail-ok :
    (reply : Bytes) (w w' : Wire)
    → reply_tail reply w ≡ (w', ok tt)
    → (prefix : Bytes) × (size : ℕ) × (bytes : Bytes) × Reads w (prefix ++ bytes) w'
      × Announced (get_or reply 3 0) prefix size
      × (length bytes ≡ size + 2)
      × (get_or reply 0 0 ≡ 5)
      × (get_or reply 1 0 ≡ 0)
      × (get_or reply 2 0 ≡ 0)
unfolding reply_tail check_head check_status
reply_tail-ok reply w w' e =
    let kind = get_or reply 3 0 in
    let ends : ℕ → M (Unit {0}) = λ size. discard (size + 2) >> check_status reply in
    let (w1, _, headed, e1) =
      >>=-eq-ok (check_head reply) (λ _. address_length kind >>= ends) w w' tt e in
    let (head, same) = fail_if-ok _ invalid w w1 headed in
    let (w2, size, sized, e2) = >>=-eq-ok (address_length kind) ends w1 w' tt e1 in
    let (prefix, (kept, consumed), announced) = address_length-ok kind w1 w2 size sized in
    let (w3, _, dropped, e3) =
      >>=-eq-ok (discard (size + 2)) (λ _. check_status reply) w2 w' tt e2 in
    let (w4, bytes, read, e4) = >>=-eq-ok (read_full (size + 2)) (λ _. done) w2 w3 tt dropped in
    let (kept', consumed', many) = read_full-ok (size + 2) w2 w4 bytes read in
    let (status, same') = fail_if-ok _ (rejected (get_or reply 1 0)) w3 w' e3 in
    let start : w1 ≡ w = sym same in
    let end' : w4 ≡ w' = ap (λ t. t.0) e4 ∙ same' in
    (
      prefix,
      size,
      bytes,
      subst (Reads w (prefix ++ bytes)) end' (
          subst (λ v. Reads v (prefix ++ bytes) w4) start
            (
              kept' ∙ kept,
              consumed ∙ ap (λ t. prefix ++ t) consumed' ∙ sym (append_assoc prefix bytes _),
            )),
      announced,
      many,
      ground arith,
      ground arith,
      ground arith,
    )

reply5-ok :
    (w w' : Wire) → reply5 w ≡ (w', ok tt) → (reply : Bytes) × Reads w reply w' × GrantReply reply
unfolding reply5
reply5-ok w w' e =
    let (w1, head, read, e1) = >>=-eq-ok (read_full 4) reply_tail w w' tt e in
    let (kept, consumed, size) = read_full-ok 4 w w1 head read in
    let (prefix, n, bytes, (kept', consumed'), announced, many, version, status, zero') =
      reply_tail-ok head w1 w' e1 in
    let kind = get_or head 3 0 in
    let bytes4 : head ≡ 5 ∷ 0 ∷ 0 ∷ kind ∷ [] =
      four_bytes head size ∙ (rw (version, status, zero')) in
    (
      5 ∷ 0 ∷ 0 ∷ kind ∷ prefix ++ bytes,
      (
        kept' ∙ kept,
        consumed
            ∙ ap (λ t. head ++ t) consumed'
            ∙ ap (λ t. t ++ ((prefix ++ bytes) ++ w'.incoming)) bytes4,
      ),
      grant kind prefix n bytes announced many refl,
    )

request_step-ok :
    (parse : Bytes → Option IpAddress) (host : Bytes) (port : ℕ) (w w' : Wire)
    → request_step parse host port w ≡ (w', ok tt)
    → (reply : Bytes) × Talks w (request5 (parse host) host port) reply w' × GrantReply reply
unfolding request_step
request_step-ok parse host port w w' e =
    let request = request5 (parse host) host port in
    let (w1, _, wrote, e1) = >>=-eq-ok (write_all request) (λ _. reply5) w w' tt e in
    let (reply, reads, granted) = reply5-ok w1 w' e1 in
    (reply, Sends-Reads w w1 w' request reply (write_all-ok request w w1 wrote) reads, granted)

-- When connect5 succeeds the server has chosen the method that it was offered, and has accepted the
-- credentials where there are any, in the order of the protocol; the request was sent last, and the
-- server has granted it; and what the server sent behind its reply is left for the tunnel.
pub connect5-Granted :
    (parse : Bytes → Option IpAddress) (host : Bytes) (port : ℕ) (c : Credentials) (w w' : Wire)
    → connect5 parse host port c w ≡ (w', ok tt)
    → (reply : Bytes) × (w'.sent
        ≡ w.sent ++ (greeting c ++ (auth_says c ++ request5 (parse host) host port)))
      × (w.incoming ≡ (5 ∷ method c ∷ [] ++ (auth_hears c ++ reply)) ++ w'.incoming)
      × GrantReply reply
unfolding connect5
connect5-Granted parse host port c w w' e =
    let request = request_step parse host port in
    let says : Bytes = greeting c ++ (auth_says c ++ request5 (parse host) host port) in
    let (w1, _, guarded, e1) =
      >>=-eq-ok (fail_if (bad_credentials c) invalid)
        (λ _. negotiate c >> (authenticate c >> request)) w w' tt e in
    let (passed, same) = fail_if-ok (bad_credentials c) invalid w w1 guarded in
    let (w2, _, agreed, e2) =
      >>=-eq-ok (negotiate c) (λ _. authenticate c >> request) w1 w' tt e1 in
    let (w3, _, logged_in, e3) = >>=-eq-ok (authenticate c) (λ _. request) w2 w' tt e2 in
    let (reply, asks, granted) = request_step-ok parse host port w3 w' e3 in
    let (sent, heard) =
      Talks-then w1 w2 w' (greeting c) (5 ∷ method c ∷ [])
        (auth_says c ++ request5 (parse host) host port) (auth_hears c ++ reply)
        (negotiate-ok c w1 w2 agreed)
        (Talks-then w2 w3 w' (auth_says c) (auth_hears c) (request5 (parse host) host port) reply
          (authenticate-ok c w2 w3 logged_in) asks) in
    (reply, sent ∙ ap (λ v. v.sent ++ says) (sym same), ap (λ v. v.incoming) same ∙ heard, granted)
