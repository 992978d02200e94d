-- ===== src/Net/HostPort/Parts.antt =====
-- Go's net.SplitHostPort: the text is made up of its parts.
use go_proxy_mux.Prelude.{
  ℕ, ◌≡◌, refl, ap, ◌∙◌, ◌⊎◌, inl, inr, false, Bool-cases, [], ◌∷◌, ◌++◌, Option, none, some, arith,
  ◌==◌,
}
use mathlib.Core.List.{append_assoc}
use go_proxy_mux.Prelude.Bytes.{Bytes}
use go_proxy_mux.Net.HostPort.{
  contains, cut, cut_last, bracketed, plain, split_at_colon, split_host_port,
}
use go_proxy_mux.Net.Cut.{later, cut-eq-some}

contains-append_false :
    (c : ℕ) (xs ys : Bytes)
    → contains c xs ≡ false
    → contains c ys ≡ false
    → contains c (xs ++ ys) ≡ false
unfolding contains
contains-append_false c [] ys h k = k
contains-append_false c (x ∷ xs) ys h k = ground (arith, contains-append_false c xs ys)

cut_last-eq-some : (c : ℕ) (s x y : Bytes) → cut_last c s ≡ some (x, y) → s ≡ x ++ c ∷ y
unfolding cut_last
cut_last-eq-some c [] x y e = absurd (ground arith)
cut_last-eq-some c (b ∷ s) x y e = elim (Bool-cases (contains c s)) [
  | inl further ↦
      later b c s x y (cut_last c s) (λ z q. cut_last-eq-some c s z y q) (rw further at e)
  | inr last ↦ elim (Bool-cases (b == c)) [
    | inl here ↦
        let e' = rw (last, here) at e in
        let empty : [] ≡ x = ground arith in
        let rest : s ≡ y = ground arith in
        let same : b ≡ c = ground arith in
        ap (λ t. t ∷ s) same ∙ ap (λ t. c ∷ t) rest ∙ ap (λ t. t ++ c ∷ y) empty
    | inr other ↦ let e' = rw (last, other) at e in absurd (ground arith)
  ]
]

-- A host and port, or a host in brackets and a port.
abbrev pub Parts : Bytes → Bytes → Bytes → Type 0
Parts s host port = (s ≡ host ++ b':' ∷ port) ⊎ (s ≡ b'[' ∷ (host ++ b']' ∷ b':' ∷ port))

plain-eq-some : (host port h p : Bytes) → plain host port ≡ some (h, p) → (host ≡ h) × (port ≡ p)
unfolding plain
plain-eq-some host port h p e = ground arith

bracketed-eq-some :
    (port : Bytes) (m : Option (Bytes × Bytes)) (h p : Bytes)
    → bracketed port m ≡ some (h, p)
    → (m ≡ some (h, [])) × (port ≡ p)
unfolding bracketed
bracketed-eq-some port none h p e = absurd (ground arith)
bracketed-eq-some port (some (host, [])) h p e =
    let same : (host ≡ h) × (port ≡ p) = ground arith in (ap (λ t. some (t, [])) same.0, same.1)
bracketed-eq-some port (some (host, x ∷ after)) h p e = absurd (ground arith)

split_at_colon-Parts :
    (s : Bytes) (m : Option (Bytes × Bytes)) (h p : Bytes)
    → cut_last b':' s ≡ m
    → split_at_colon m ≡ some (h, p)
    → Parts s h p
unfolding split_at_colon
split_at_colon-Parts s none h p q e = absurd (ground arith)
split_at_colon-Parts s (some ([], port)) h p q e =
    let (host, same) = plain-eq-some [] port h p e in
    inl (
      cut_last-eq-some b':' s [] port q
      ∙ ap (λ t. t ++ b':' ∷ port) host
      ∙ ap (λ t. h ++ b':' ∷ t) same)
split_at_colon-Parts s (some (b ∷ bs, port)) h p q e =
    let whole = cut_last-eq-some b':' s (b ∷ bs) port q in
    elim (Bool-cases (b == b'[')) [
      | inl open_bracket ↦
          let (inside, same) = bracketed-eq-some port (cut b']' bs) h p (rw open_bracket at e) in
          let first : b ≡ b'[' = ground arith in
          inr (
            whole
            ∙ ap (λ c. c ∷ (bs ++ b':' ∷ port)) first
            ∙ ap (λ t. b'[' ∷ (t ++ b':' ∷ port)) (cut-eq-some b']' bs h [] inside)
            ∙ ap (◌∷◌ b'[') (append_assoc h (b']' ∷ []) (b':' ∷ port))
            ∙ ap (λ t. b'[' ∷ (h ++ b']' ∷ b':' ∷ t)) same)
      | inr other ↦
          let (host, same) = plain-eq-some (b ∷ bs) port h p (rw other at e) in
          inl (whole ∙ ap (λ t. t ++ b':' ∷ port) host ∙ ap (λ t. h ++ b':' ∷ t) same)
    ]

pub split_host_port-Parts : (s h p : Bytes) → split_host_port s ≡ some (h, p) → Parts s h p
unfolding split_host_port
split_host_port-Parts s h p e = split_at_colon-Parts s (cut_last b':' s) h p refl e

-- A byte that neither part has, and that is no colon or bracket, is not in the text.
pub contains-split_host_port :
    (c : ℕ) (s h p : Bytes)
    → split_host_port s ≡ some (h, p)
    → contains c h ≡ false
    → contains c p ≡ false
    → contains c (b'[' ∷ b']' ∷ b':' ∷ []) ≡ false
    → contains c s ≡ false
unfolding contains
contains-split_host_port c s h p e host port apart = elim (split_host_port-Parts s h p e) [
  | inl same ↦ rw same (contains-append_false c h (b':' ∷ p) host (ends apart port))
  | inr same ↦
      rw same (opens apart (contains-append_false c h (b']' ∷ b':' ∷ p) host (closes apart port)))
]
  where
    ends :
        contains c (b'[' ∷ b']' ∷ b':' ∷ []) ≡ false
        → contains c p ≡ false
        → contains c (b':' ∷ p) ≡ false
    ends a k = ground arith

    closes :
        contains c (b'[' ∷ b']' ∷ b':' ∷ []) ≡ false
        → contains c p ≡ false
        → contains c (b']' ∷ b':' ∷ p) ≡ false
    closes a k = ground arith

    opens :
        contains c (b'[' ∷ b']' ∷ b':' ∷ []) ≡ false
        → contains c (h ++ b']' ∷ b':' ∷ p) ≡ false
        → contains c (b'[' ∷ (h ++ b']' ∷ b':' ∷ p)) ≡ false
    opens a k = ground arith
