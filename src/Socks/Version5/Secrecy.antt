-- ===== src/Socks/Version5/Secrecy.antt =====
-- internal/socks/socks.go, connect5: what a server sees that does not choose the offered method.
use go_proxy_mux.Prelude.{
  ℕ, ◌≡◌, refl, sym, ap, ◌∙◌, ◌≢◌, Bool-cases, inl, inr, ◌||◌, not, [], ◌∷◌, ◌++◌, Option, arith,
  length, get_or, ◌==◌,
}
use mathlib.Core.List.{append-nil}
use go_proxy_mux.Prelude.Bytes.{Bytes}
use go_proxy_mux.Socks.Wire.{
  Wire, Result, ok, err, Error, invalid, network, ◌>>=◌, continue, read_full, all_sent, part_sent,
  write_all-Written, got, cut_short, read_full-ReadResult,
}
use go_proxy_mux.Socks.Version4.{IpAddress}
use go_proxy_mux.Socks.Version5.Sends.{two_bytes}
use go_proxy_mux.Socks.Version5.{
  Credentials, bad_credentials, method, greeting, check_method, negotiate, connect5,
}

-- No more than an initial part of the greeting was sent.
abbrev pub OnlyGreeted : Credentials → Wire → Wire → Type 0
OnlyGreeted c w w' =
    (part : Bytes) × (missing : Bytes) × (part ++ missing ≡ greeting c) × (w'.sent ≡ w.sent ++ part)

-- How the first exchange ends with such a server.
Refused : Credentials → Wire → Wire × Result (Unit {0}) → Type 0
Refused c w r = (w' : Wire) × (x : Error) × (r ≡ (w', err x)) × OnlyGreeted c w w'

wrong_method :
    (c : Credentials) (w w' : Wire) (selected rest : Bytes)
    → ((after : Bytes) → w.incoming ≢ 5 ∷ method c ∷ after)
    → length selected ≡ 2
    → w.incoming ≡ selected ++ rest
    → check_method c selected w' ≡ (w', err invalid)
unfolding check_method
wrong_method c w w' selected rest refuses size incoming =
    elim (Bool-cases (not (get_or selected 0 0 == 5) || not (get_or selected 1 0 == method c))) [
      | inl wrong ↦ rw wrong
      | inr right ↦
          let first : get_or selected 0 0 ≡ 5 = ground arith in
          let second : get_or selected 1 0 ≡ method c = ground arith in
          let bytes : selected ≡ 5 ∷ method c ∷ [] =
            two_bytes selected size ∙ (rw (first, second)) in
          absurd (refuses rest (incoming ∙ ap (λ t. t ++ rest) bytes))
    ]

greeted :
    (c : Credentials) (w w1 : Wire)
    → ((after : Bytes) → w.incoming ≢ 5 ∷ method c ∷ after)
    → w1.incoming ≡ w.incoming
    → w1.sent ≡ w.sent ++ greeting c
    → Refused c w ((read_full 2 >>= check_method c) w1)
unfolding Refused
greeted c w w1 refuses same sent = elim (read_full-ReadResult 2 w1) [
  | cut_short q ↦ (
    record w1 { incoming = [] },
    network,
    ap (continue (check_method c)) q,
    (greeting c, [], append-nil (greeting c), sent),
  )
  | got bytes rest size incoming q ↦ (
    record w1 { incoming = rest },
    invalid,
    ap (continue (check_method c)) q
        ∙ wrong_method c w _ bytes rest refuses size (sym same ∙ incoming),
    (greeting c, [], append-nil (greeting c), sent),
  )
]

negotiate-Refused :
    (c : Credentials) (w : Wire)
    → ((after : Bytes) → w.incoming ≢ 5 ∷ method c ∷ after)
    → Refused c w (negotiate c w)
unfolding negotiate Refused
negotiate-Refused c w refuses = elim (write_all-Written (greeting c) w) [
  | part_sent part missing ws x whole p ↦ (
    record w { sent = w.sent ++ part; writes = ws },
    x,
    ap (continue (λ _. read_full 2 >>= check_method c)) p,
    (part, missing, whole, refl),
  )
  | all_sent ws p ↦
      let w1 : Wire = record w { sent = w.sent ++ greeting c; writes = ws } in
      let (w2, x, fails, only) = greeted c w w1 refuses refl refl in
      (w2, x, ap (continue (λ _. read_full 2 >>= check_method c)) p ∙ fails, only)
]

-- A server that does not answer the greeting by version 5 and the offered method is sent no more
-- than the greeting: it sees neither the credentials nor the destination, and the dial fails.
pub connect5_keeps_secret :
    (parse : Bytes → Option IpAddress) (host : Bytes) (port : ℕ) (c : Credentials) (w : Wire)
    → ((rest : Bytes) → w.incoming ≢ 5 ∷ method c ∷ rest)
    → OnlyGreeted c w (connect5 parse host port c w).0
      × ((w' : Wire) → connect5 parse host port c w ≢ (w', ok tt))
unfolding connect5 Refused
connect5_keeps_secret parse host port c w refuses = elim (Bool-cases (bad_credentials c)) [
  | inl bad ↦ rw bad (([], greeting c, refl, sym (append-nil w.sent)), λ w' e. ground arith)
  | inr good ↦
      let (w2, x, fails, only) = negotiate-Refused c w refuses in
      rw (good, fails) (only, λ w' e. ground arith)
]
