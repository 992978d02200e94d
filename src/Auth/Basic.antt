-- ===== src/Auth/Basic.antt =====
-- internal/proxy/auth.go: which headers isAuthorized lets in.
use go_proxy_mux.Prelude.{
  ℕ, ◌+◌, ◌≡◌, refl, sym, ap, ◌∙◌, subst, ◌↔◌, ◌⊎◌, true, false, Bool-cases, inl, inr, [], ◌∷◌,
  ◌++◌, Option, none, some, arith, drop, ◌&&◌, leb, ◌==◌,
}
use go_proxy_mux.Prelude.Bytes.{Bytes, str_eq, str_eq_iff}
use go_proxy_mux.Net.{contains, cut}
use go_proxy_mux.Net.HostPort.{before_of}
use go_proxy_mux.Net.Cut.{cut-append, cut-eq-some}
use go_proxy_mux.Config.{AuthConfig}
use go_proxy_mux.Auth.{lower, lower_all, is_basic, matches, check_decoded, is_authorized}

-- A letter in either case.
abbrev Letter : ℕ → ℕ → ℕ → Type 0
Letter small capital c = (c ≡ small) ⊎ (c ≡ capital)

-- The word Basic in any case, a blank, and the rest.
pub data IsBasic : Bytes → Bytes → Type 0 where
  basic :
      {b a s i c : ℕ} {rest : Bytes}
      → Letter b'b' b'B' b
      → Letter b'a' b'A' a
      → Letter b's' b'S' s
      → Letter b'i' b'I' i
      → Letter b'c' b'C' c
      → IsBasic (b ∷ a ∷ s ∷ i ∷ c ∷ b' ' ∷ rest) rest

-- A login: the encoded text is a user without a colon, a colon and a password, and both have the
-- sums of the configured ones.
pub record Login (decode : Bytes → Option Bytes) (sum : Bytes → Bytes) (cfg : AuthConfig)
    (header : Bytes) : Type 0 where
  pub encoded : Bytes
  pub username : Bytes
  pub password : Bytes
  pub scheme : IsBasic header encoded
  pub decoded : decode encoded ≡ some (username ++ b':' ∷ password)
  pub no_colon : contains b':' username ≡ false
  pub same_user : sum cfg.username ≡ sum username
  pub same_password : sum cfg.password ≡ sum password

module _ (small capital : ℕ) (same : small ≡ capital + 32)
    (is_capital : (leb b'A' capital && leb capital b'Z') ≡ true) where
  lower-Letter : (c : ℕ) → lower c ≡ small → Letter small capital c
  unfolding lower
  lower-Letter c k = elim (Bool-cases (leb b'A' c && leb c b'Z')) [
    | inl up ↦ let k' : c + 32 ≡ small = rw up at k in inr (omega arith)
    | inr other ↦ inl (rw other at k)
  ]

  Letter-lower : (c : ℕ) → Letter small capital c → lower c ≡ small
  unfolding lower
  Letter-lower c (inl e) = ground arith
  Letter-lower c (inr e) = ground arith

lower_blank : (c : ℕ) → lower c ≡ b' ' → c ≡ b' '
unfolding lower
lower_blank c e = ground arith

is_basic-IsBasic : (header : Bytes) → is_basic header ≡ true → IsBasic header (drop 6 header)
unfolding is_basic lower_all str_eq
is_basic-IsBasic (b ∷ a ∷ s ∷ i ∷ c ∷ d ∷ rest) e =
    let at_b : lower b ≡ b'b' = ground arith in
    let at_a : lower a ≡ b'a' = ground arith in
    let at_s : lower s ≡ b's' = ground arith in
    let at_i : lower i ≡ b'i' = ground arith in
    let at_c : lower c ≡ b'c' = ground arith in
    let at_d : lower d ≡ b' ' = ground arith in
    subst (λ x. IsBasic (b ∷ a ∷ s ∷ i ∷ c ∷ x ∷ rest) rest) (sym (lower_blank d at_d))
      (basic (lower-Letter b'b' b'B' refl refl b at_b) (lower-Letter b'a' b'A' refl refl a at_a)
        (lower-Letter b's' b'S' refl refl s at_s) (lower-Letter b'i' b'I' refl refl i at_i)
        (lower-Letter b'c' b'C' refl refl c at_c))
is_basic-IsBasic _ e = absurd (ground arith)

IsBasic-is_basic :
    (header rest : Bytes) → IsBasic header rest → (is_basic header ≡ true) × (drop 6 header ≡ rest)
unfolding is_basic lower_all str_eq lower
IsBasic-is_basic _ _ (basic {b} {a} {s} {i} {c} {rest} at_b at_a at_s at_i at_c) =
    let b_low = Letter-lower b'b' b'B' refl refl b at_b in
    let a_low = Letter-lower b'a' b'A' refl refl a at_a in
    let s_low = Letter-lower b's' b'S' refl refl s at_s in
    let i_low = Letter-lower b'i' b'I' refl refl i at_i in
    let c_low = Letter-lower b'c' b'C' refl refl c at_c in
    let d_low : lower b' ' ≡ b' ' = blank in (ground arith, refl)
  where
    blank : lower b' ' ≡ b' '
    blank = refl

before_of-eq-some :
    (b : ℕ) (m : Option (Bytes × Bytes)) (x y : Bytes)
    → before_of b m ≡ some (x, y)
    → (z : Bytes) × (m ≡ some (z, y)) × (b ∷ z ≡ x)
unfolding before_of
before_of-eq-some b none x y e = absurd (ground arith)
before_of-eq-some b (some (z, w)) x y e =
    let first : b ∷ z ≡ x = ground arith in
    let second : w ≡ y = ground arith in (z, ap (λ t. some (z, t)) second, first)

-- What stands before the first of the bytes has none.
contains-cut : (c : ℕ) (s x y : Bytes) → cut c s ≡ some (x, y) → contains c x ≡ false
unfolding cut contains
contains-cut c [] x y e = absurd (ground arith)
contains-cut c (b ∷ s) x y e = elim (Bool-cases (b == c)) [
  | inl here ↦
      let e' = rw here at e in
      let empty : [] ≡ x = ground arith in subst (λ t. contains c t ≡ false) empty refl
  | inr there ↦
      let (z, q, same) = before_of-eq-some b (cut c s) x y (rw there at e) in
      let further = contains-cut c s z y q in
      subst (λ t. contains c t ≡ false) same (rw (there, further) refl)
]

module _ (decode : Bytes → Option Bytes) (sum : Bytes → Bytes) (cfg : AuthConfig) where
  matches-sums :
      (username password : Bytes)
      → (matches sum cfg (some (username, password)) ≡ true)
        ↔ ((sum cfg.username ≡ sum username) × (sum cfg.password ≡ sum password))
  unfolding matches
  matches-sums username password =
      let u = str_eq_iff (sum cfg.username) (sum username) in
      let p = str_eq_iff (sum cfg.password) (sum password) in
      (λ e. (u.0 (ground arith), p.0 (ground arith)), λ same. rw (u.1 same.0, p.1 same.1) refl)

  Login-parted :
      (header : Bytes) (m : Option Bytes)
      → IsBasic header (drop 6 header)
      → decode (drop 6 header) ≡ m
      → check_decoded sum cfg m ≡ true
      → Login decode sum cfg header
  unfolding check_decoded matches
  Login-parted header none b d e = absurd (ground arith)
  Login-parted header (some text) b d e = parted (cut b':' text) refl e
    where
      parted :
          (parts : Option (Bytes × Bytes))
          → cut b':' text ≡ parts
          → matches sum cfg parts ≡ true
          → Login decode sum cfg header
      parted none q e' = absurd (ground arith)
      parted (some (username, password)) q e' =
          let (same_user, same_password) = (matches-sums username password).0 e' in
          record {
            encoded = drop 6 header;
            username = username;
            password = password;
            scheme = b;
            decoded = d ∙ ap some (cut-eq-some b':' text username password q);
            no_colon = contains-cut b':' text username password q;
            same_user = same_user;
            same_password = same_password;
          }

  Login-let_in :
      (header : Bytes) → Login decode sum cfg header → is_authorized decode sum cfg header ≡ true
  unfolding is_authorized check_decoded
  Login-let_in header l =
      let (basic_word, rest) = IsBasic-is_basic header l.encoded l.scheme in
      rw basic_word (
        ap (λ t. check_decoded sum cfg (decode t)) rest
        ∙ ap (check_decoded sum cfg) l.decoded
        ∙ ap (matches sum cfg) (cut-append b':' l.username l.password l.no_colon)
        ∙ (matches-sums l.username l.password).1 (l.same_user, l.same_password))

  -- isAuthorized lets in exactly the headers that are the word Basic in any case, a blank, and a
  -- text that decodes to a user without a colon, a colon and a password, where the user and the
  -- password have the sums of the configured ones.
  pub is_authorized-eq-true_iff :
      (header : Bytes) → (is_authorized decode sum cfg header ≡ true) ↔ Login decode sum cfg header
  unfolding is_authorized
  is_authorized-eq-true_iff header = (let_in, Login-let_in header)
    where
      let_in : is_authorized decode sum cfg header ≡ true → Login decode sum cfg header
      let_in e = elim (Bool-cases (is_basic header)) [
        | inl word ↦
            Login-parted header (decode (drop 6 header)) (is_basic-IsBasic header word) refl
              (rw word at e)
        | inr other ↦ let never = rw other at e in absurd (ground arith)
      ]
