-- ===== src/Net/Cut.antt =====
-- Go's strings.Cut by one byte, as auth.go and the messages of socks.go rely on it.
use go_proxy_mux.Prelude.{
  ℕ, ◌≡◌, ap, ◌∙◌, false, Bool-cases, inl, inr, [], ◌∷◌, ◌++◌, Option, none, some, arith, ◌==◌,
}
use go_proxy_mux.Prelude.Bytes.{Bytes}
use go_proxy_mux.Net.HostPort.{contains, before_of, cut}

-- Text up to a byte that it does not hold.
pub cut-append :
    (c : ℕ) (s rest : Bytes) → contains c s ≡ false → cut c (s ++ c ∷ rest) ≡ some (s, rest)
unfolding cut contains
cut-append c [] rest h = ground arith
cut-append c (b ∷ s) rest h = ground (arith, cut-append c s rest)

pub later :
    (b c : ℕ) (s x y : Bytes) (m : Option (Bytes × Bytes))
    → ((z : Bytes) → m ≡ some (z, y) → s ≡ z ++ c ∷ y)
    → before_of b m ≡ some (x, y)
    → b ∷ s ≡ x ++ c ∷ y
unfolding before_of
later b c s x y none h e = absurd (ground arith)
later b c s x y (some (z, w)) h e =
    let same_rest : w ≡ y = ground arith in
    let same : b ∷ z ≡ x = ground arith in
    ap (◌∷◌ b) (h z (ap (λ t. some (z, t)) same_rest)) ∙ ap (λ t. t ++ c ∷ y) same

-- The parts make up the whole.
pub cut-eq-some : (c : ℕ) (s x y : Bytes) → cut c s ≡ some (x, y) → s ≡ x ++ c ∷ y
unfolding cut
cut-eq-some c [] x y e = absurd (ground arith)
cut-eq-some c (b ∷ s) x y e = elim (Bool-cases (b == c)) [
  | inl here ↦
      let e' = rw here at e in
      let empty : [] ≡ x = ground arith in
      let rest : s ≡ y = ground arith in
      let same : b ≡ c = ground arith in
      ap (λ t. t ∷ s) same ∙ ap (λ t. c ∷ t) rest ∙ ap (λ t. t ++ c ∷ y) empty
  | inr there ↦ later b c s x y (cut c s) (λ z q. cut-eq-some c s z y q) (rw there at e)
]
