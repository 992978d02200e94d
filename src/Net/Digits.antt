-- ===== src/Net/Digits.antt =====
-- Go's strconv.Atoi: which bytes a number's text has.
use go_proxy_mux.Prelude.{
  ℕ, ◌+◌, ◌*◌, ◌≡◌, refl, Bool, false, ◌||◌, ◌&&◌, Bool-cases, inl, inr, [], ◌∷◌, Option, none,
  some, arith, leb, ◌==◌,
}
use go_proxy_mux.Prelude.Int.{ℤ}
use go_proxy_mux.Prelude.Bytes.{Bytes}
use go_proxy_mux.Net.{contains, digit, digits_value, unsigned, positive, negative, atoi}

-- No digit and no sign.
abbrev pub is_apart : ℕ → Bool
is_apart c = (leb b'0' c && leb c b'9') || (c == b'+' || c == b'-')

digit-apart : (b c d : ℕ) → digit b ≡ some d → is_apart c ≡ false → (b == c) ≡ false
unfolding digit
digit-apart b c d e a = ground arith

some_digit :
    (m : Option ℕ) (f : ℕ → Option ℕ) (n : ℕ)
    → elim m [ none ↦ none | some d ↦ f d ] ≡ some n
    → (d : ℕ) × (m ≡ some d) × (f d ≡ some n)
some_digit none f n e = absurd (ground arith)
some_digit (some d) f n e = (d, refl, e)

contains-digits_value :
    (c acc : ℕ) (s : Bytes) (n : ℕ)
    → is_apart c ≡ false
    → digits_value acc s ≡ some n
    → contains c s ≡ false
unfolding contains digits_value
contains-digits_value c acc [] n a e = refl
contains-digits_value c acc (b ∷ s) n a e =
    let (d, q, further) = some_digit (digit b) (λ d. digits_value (acc * 10 + d) s) n e in
    let rest = contains-digits_value c (acc * 10 + d) s n a further in
    let first = digit-apart b c d q a in ground arith

contains-unsigned :
    (c : ℕ) (s : Bytes) (n : ℕ) → is_apart c ≡ false → unsigned s ≡ some n → contains c s ≡ false
unfolding unsigned
contains-unsigned c [] n a e = absurd (ground arith)
contains-unsigned c (b ∷ s) n a e = contains-digits_value c 0 (b ∷ s) n a e

positive-eq-some : (m : Option ℕ) (z : ℤ) → positive m ≡ some z → (n : ℕ) × (m ≡ some n)
unfolding positive
positive-eq-some none z e = absurd (ground arith)
positive-eq-some (some n) z e = (n, refl)

negative-eq-some : (m : Option ℕ) (z : ℤ) → negative m ≡ some z → (n : ℕ) × (m ≡ some n)
unfolding negative
negative-eq-some none z e = absurd (ground arith)
negative-eq-some (some n) z e = (n, refl)

-- The text of a number has none but digits and signs.
pub contains-atoi :
    (c : ℕ) (s : Bytes) (z : ℤ) → is_apart c ≡ false → atoi s ≡ some z → contains c s ≡ false
unfolding atoi contains
contains-atoi c [] z a e = absurd (ground arith)
contains-atoi c (b ∷ s) z a e = elim (Bool-cases (b == b'+')) [
  | inl plus ↦
      let (n, q) = positive-eq-some (unsigned s) z (rw plus at e) in
      let rest = contains-unsigned c s n a q in ground arith
  | inr not_plus ↦ elim (Bool-cases (b == b'-')) [
    | inl minus ↦
        let (n, q) = negative-eq-some (unsigned s) z (rw (not_plus, minus) at e) in
        let rest = contains-unsigned c s n a q in ground arith
    | inr not_minus ↦
        let (n, q) = positive-eq-some (unsigned (b ∷ s)) z (rw (not_plus, not_minus) at e) in
        contains-unsigned c (b ∷ s) n a q
  ]
]
