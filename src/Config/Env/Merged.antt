-- ===== src/Config/Env/Merged.antt =====
-- internal/config/env.go: a configuration that applyEnvOverrides accepts.
use go_proxy_mux.Prelude.{
  ℕ, ◌≡◌, ap, ◌∙◌, true, Bool-cases, inl, inr, List, [], ◌∷◌, Option, none, some, All, arith,
}
use go_proxy_mux.Prelude.Int.{ℤ}
use go_proxy_mux.Prelude.Bytes.{Bytes, codes}
use go_proxy_mux.Prelude.Dict.{lookup}
use go_proxy_mux.Net.{atoi}
use go_proxy_mux.Config.{UpstreamConfig, Config}
use go_proxy_mux.Config.Env.Settings.{
  Variables, applied, booleans, integers, durations, parse_bool, is_any,
}
use go_proxy_mux.Config.Env.Folded.{AllRead, bind-eq-applied, applied_injective}
use go_proxy_mux.Config.Env.Overrides.{overridden, apply_plain-eq-applied, folded-overridden}
use go_proxy_mux.Config.Env.Upstreams.{
  upstreams_from, Described, read_upstreams-eq-applied, Counted, count_of-Counted,
}
use go_proxy_mux.Config.Env.{
  apply_plain, count_of, with_upstreams, read_upstreams, known_names, check_names,
  apply_env_overrides,
}

module _ (decimal : ℕ → Bytes) (parse_duration : Bytes → Option ℤ) (vars : Variables) where
  abbrev pub upstreams_or : List UpstreamConfig → Option ℕ → List UpstreamConfig
  upstreams_or us none = us
  upstreams_or us (some n) = upstreams_from decimal vars 1 n

  -- The upstreams that are counted, in place of the configuration's.
  abbrev pub replaced : Option ℕ → Config → Config
  replaced count c = record c { upstreams = upstreams_or c.upstreams count }

  abbrev pub AllDescribed : Option ℕ → Type 0
  AllDescribed none = Unit
  AllDescribed (some n) = Described decimal vars 1 n

  pub record Merged (cfg cfg' : Config) : Type 0 where
    pub count : Option ℕ
    pub counted : Counted (lookup (codes "MUX_UPSTREAM_COUNT") vars) count
    pub fields : cfg' ≡ record (overridden parse_duration vars cfg) {
      upstreams = upstreams_or cfg.upstreams count;
    }
    pub described : AllDescribed count
    pub booleans_read : AllRead parse_bool vars booleans
    pub integers_read : AllRead atoi vars integers
    pub durations_read : AllRead parse_duration vars durations
    pub all_known : All (λ v. is_any v.0 (known_names decimal count) ≡ true) vars

  check_names-eq-applied :
      (known : List Bytes) (vs : Variables) (cfg cfg' : Config)
      → check_names known vs cfg ≡ applied cfg'
      → (cfg' ≡ cfg) × All (λ v. is_any v.0 known ≡ true) vs
  unfolding check_names
  check_names-eq-applied known [] cfg cfg' e = (applied_injective cfg cfg' e, tt)
  check_names-eq-applied known ((name, value) ∷ vs) cfg cfg' e =
      elim (Bool-cases (is_any name known)) [
        | inl there ↦
            let (same, rest) = check_names-eq-applied known vs cfg cfg' (rw there at e) in
            (same, (there, rest))
        | inr unknown ↦ let e' = rw unknown at e in absurd (ground arith)
      ]

  with_upstreams-eq-applied :
      (cfg cfg' : Config) (count : Option ℕ)
      → with_upstreams decimal vars cfg count ≡ applied cfg'
      → (cfg' ≡ record cfg { upstreams = upstreams_or cfg.upstreams count }) × AllDescribed count
  with_upstreams-eq-applied cfg cfg' none e = (applied_injective cfg cfg' e, tt)
  with_upstreams-eq-applied cfg cfg' (some n) e =
      let (us, first, last) =
        bind-eq-applied (read_upstreams decimal vars 1 n)
          (λ us. applied (record cfg { upstreams = us })) cfg' e in
      let (same, described) = read_upstreams-eq-applied decimal vars n 1 us first in
      (
        applied_injective (record cfg { upstreams = us }) cfg' last
            ∙ ap (λ vs. record cfg { upstreams = vs }) same,
        described,
      )

  -- A configuration that the environment's variables are merged into is, field by field, what the
  -- variable of the field says, else what it was: the upstreams are those that the variables
  -- describe when MUX_UPSTREAM_COUNT gives their number, from 0 to 1024, each with a URL, else what
  -- they were. Every boolean, integer and duration that is given can be read, and every variable
  -- is known.
  pub apply_env_overrides-Merged :
      (cfg cfg' : Config)
      → apply_env_overrides decimal parse_duration vars cfg ≡ applied cfg'
      → Merged cfg cfg'
  unfolding apply_env_overrides overridden
  apply_env_overrides-Merged cfg cfg' e =
      let (c1, first, rest) = bind-eq-applied (apply_plain parse_duration vars cfg) _ cfg' e in
      let (count, second, rest2) =
        bind-eq-applied (count_of (lookup (codes "MUX_UPSTREAM_COUNT") vars)) _ cfg' rest in
      let (c2, third, last) =
        bind-eq-applied (with_upstreams decimal vars c1 count)
          (check_names (known_names decimal count) vars) cfg' rest2 in
      let (q1, booleans_read, integers_read, durations_read) =
        apply_plain-eq-applied parse_duration vars cfg c1 first in
      let (q2, described) = with_upstreams-eq-applied c1 c2 count third in
      let (q3, known) = check_names-eq-applied (known_names decimal count) vars c2 cfg' last in
      record {
        count = count;
        counted = count_of-Counted (lookup (codes "MUX_UPSTREAM_COUNT") vars) count second;
        fields = q3 ∙ q2 ∙ ap (replaced count) (q1 ∙ folded-overridden parse_duration vars cfg);
        described = described;
        booleans_read = booleans_read;
        integers_read = integers_read;
        durations_read = durations_read;
        all_known = known;
      }
