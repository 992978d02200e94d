-- ===== src/Config/Env/Upstreams.antt =====
-- internal/config/env.go: the upstreams that the variables describe.
use go_proxy_mux.Prelude.{
  subst, ℕ, zero, suc, ◌≡◌, refl, sym, ap, ◌∙◌, ◌≤◌, false, ◌||◌, Bool-cases, inl, inr, List, [],
  ◌∷◌, ◌++◌, Option, none, some, arith,
}
use go_proxy_mux.Prelude.Int.{ℤ, pos, negsuc, ltb_ℤ}
use go_proxy_mux.Prelude.Bytes.{Bytes, codes, str_eq}
use go_proxy_mux.Prelude.Dict.{lookup}
use go_proxy_mux.Net.{atoi}
use go_proxy_mux.Config.{UpstreamConfig, no_upstream}
use go_proxy_mux.Config.Env.Settings.{
  Variables, applied, parse_bool, apply_settings, bad_boolean, unknown,
}
use go_proxy_mux.Config.Env.Folded.{
  read_or, Reads, folded, bind-eq-applied, applied_injective, apply_settings-eq-applied,
}
use go_proxy_mux.Config.Env.{
  prefix_of, upstream_texts, upstream_booleans, with_url, read_upstream, read_upstreams, in_count,
  count_of,
}

module _ (decimal : ℕ → Bytes) (vars : Variables) where
  field : ℕ → Bytes → Bytes
  field n suffix = read_or some [] (lookup (prefix_of decimal n ++ suffix) vars)

  -- Upstream `n`: what its variables say, else Go's zero value.
  upstream_at : ℕ → UpstreamConfig
  upstream_at n = record {
    url = field n (codes "URL");
    auth = record {
      enabled =
          read_or parse_bool false (lookup (prefix_of decimal n ++ codes "AUTH_ENABLED") vars);
      username = field n (codes "AUTH_USERNAME");
      password = field n (codes "AUTH_PASSWORD");
    };
    tls_ca_file = field n (codes "TLS_CA_FILE");
  }

  -- Upstreams `n`, `n + 1` and on, `left` of them.
  pub upstreams_from : ℕ → ℕ → List UpstreamConfig
  upstreams_from n zero = []
  upstreams_from n (suc left) = upstream_at n ∷ upstreams_from (suc n) left

  -- A variable that turns the login on or off can be read.
  ReadsAuth : ℕ → Type 0
  ReadsAuth n = Reads parse_bool (lookup (prefix_of decimal n ++ codes "AUTH_ENABLED") vars)

  pub Described : ℕ → ℕ → Type 0
  Described n zero = Unit
  Described n (suc left) =
      (str_eq (field n (codes "URL")) [] ≡ false) × ReadsAuth n × Described (suc n) left

  with_url-eq-applied :
      (n : ℕ) (u u' : UpstreamConfig)
      → with_url n u ≡ applied u'
      → (u' ≡ u) × (str_eq u'.url [] ≡ false)
  with_url-eq-applied n u u' e = elim (Bool-cases (str_eq u.url [])) [
    | inl empty ↦ let e' = rw empty at e in absurd (ground arith)
    | inr there ↦
        let same = applied_injective u u' (rw there at e) in
        (same, ap (λ v. str_eq v.url []) same ∙ there)
  ]

  read_upstream-eq-applied :
      (n : ℕ) (u : UpstreamConfig)
      → read_upstream decimal vars n ≡ applied u
      → (u ≡ upstream_at n) × (str_eq u.url [] ≡ false) × ReadsAuth n
  unfolding read_upstream upstream_at field ReadsAuth upstream_texts upstream_booleans
  read_upstream-eq-applied n u e =
      let prefix = prefix_of decimal n in
      let (u2, e2, last) = bind-eq-applied _ (with_url n) u e in
      let (u1, first, second) =
        bind-eq-applied _ (apply_settings parse_bool bad_boolean vars (upstream_booleans prefix)) u2
          e2 in
      let (q1, _) =
        apply_settings-eq-applied some unknown vars (upstream_texts prefix) no_upstream u1
          (λ c. refl, (λ c. refl, (λ c. refl, (λ c. refl, tt)))) first in
      let (q2, r2) =
        apply_settings-eq-applied parse_bool bad_boolean vars (upstream_booleans prefix) u1 u2
          (λ c. refl, tt) second in
      let (q3, url) = with_url-eq-applied n u2 u last in
      (q3 ∙ q2 ∙ ap (folded parse_bool vars (upstream_booleans prefix)) q1, url, r2.0)

  pub read_upstreams-eq-applied :
      (left n : ℕ) (us : List UpstreamConfig)
      → read_upstreams decimal vars n left ≡ applied us
      → (us ≡ upstreams_from n left) × Described n left
  unfolding read_upstreams upstreams_from Described upstream_at
  read_upstreams-eq-applied zero n us e = (applied_injective [] us e, tt)
  read_upstreams-eq-applied (suc left) n us e =
      let (u, first, more) = bind-eq-applied (read_upstream decimal vars n) _ us e in
      let (rest, second, last) =
        bind-eq-applied (read_upstreams decimal vars (suc n) left) _ us more in
      let (same, url, auth) = read_upstream-eq-applied n u first in
      let (others, described) = read_upstreams-eq-applied left (suc n) rest second in
      (
        applied_injective (u ∷ rest) us last
            ∙ ap (λ v. v ∷ rest) same
            ∙ ap (λ vs. upstream_at n ∷ vs) others,
        (ap (λ v. str_eq v.url []) (sym same) ∙ url, auth, described),
      )

-- A number of upstreams is there exactly when its variable is.
abbrev pub Counted : Option Bytes → Option ℕ → Type 0
Counted none none = Unit
Counted none (some n) = ⊥
Counted (some text) none = ⊥
Counted (some text) (some n) = (atoi text ≡ some (pos n)) × (n ≤ 1024)

in_count-eq-applied :
    (m : Option ℤ) (n : ℕ) → in_count m ≡ applied n → (m ≡ some (pos n)) × (n ≤ 1024)
in_count-eq-applied none n e = absurd (ground arith)
in_count-eq-applied (some (negsuc m)) n e = absurd (ground arith)
in_count-eq-applied (some (pos m)) n e =
    elim (Bool-cases (ltb_ℤ (pos m) (pos 0) || ltb_ℤ (pos 1024) (pos m))) [
      | inl outside ↦ let e' = rw outside at e in absurd (ground arith)
      | inr within ↦
          let same : n ≡ m = applied_injective m n (rw within at e) in
          let bound : m ≤ 1024 = ground arith in (ap (λ k. some (pos k)) (sym same), omega arith)
    ]

pub count_of-Counted :
    (m : Option Bytes) (count : Option ℕ) → count_of m ≡ applied count → Counted m count
count_of-Counted none none e = tt
count_of-Counted none (some n) e = absurd (ground arith)
count_of-Counted (some text) count e =
    let (n, first, last) = bind-eq-applied (in_count (atoi text)) (λ n. applied (some n)) count e in
    let same = applied_injective (some n) count last in
    subst (Counted (some text)) (sym same) (in_count-eq-applied (atoi text) n first)
