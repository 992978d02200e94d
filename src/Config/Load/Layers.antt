-- ===== src/Config/Load/Layers.antt =====
-- internal/config/config.go, LoadConfigWithEnv: the layers of a configuration, and its checks.
use go_proxy_mux.Prelude.{
  ◌≡◌, ◌≢◌, refl, sym, ap, ◌∙◌, subst, Bool, true, false, [], ◌∷◌, Option, none, some, arith,
}
use go_proxy_mux.Config.{Config, default_config}
use go_proxy_mux.Config.Validate.{Fault, validate}
use go_proxy_mux.Config.Env.Settings.{Variables, Applied, applied, faulty}
use go_proxy_mux.Config.Env.{apply_env_overrides}
use go_proxy_mux.Config.Env.Values.{EnvFile, read_env_values}
use go_proxy_mux.Config.Env.Values.Sources.{Sourced, read_env_values-Sourced}
use go_proxy_mux.Config.Env.Merged.{Merged, apply_env_overrides-Merged}
use go_proxy_mux.Config.Load.{
  ConfigFile, no_filename, absent, unreadable, content, Loaded, loaded, failed, ◌>>=◌, Surroundings,
  decoded, read_config, or_env_fault, check_source, unless_invalid, load_config_with_env,
}

bind-eq-loaded :
    {A B : Type 0} (m : Loaded A) (f : A → Loaded B) (b : B)
    → (m >>= f) ≡ loaded b
    → (a : A) × (m ≡ loaded a) × (f a ≡ loaded b)
bind-eq-loaded (loaded a) f b e = (a, refl, e)
bind-eq-loaded (failed fault) f b e = absurd (ground arith)

abbrev value_or : {A : Type 0} → A → Loaded A → A
value_or d (loaded a) = a
value_or d (failed fault) = d

loaded_injective : {A : Type 0} (a b : A) → loaded a ≡ loaded b → b ≡ a
loaded_injective a b e = sym (ap (value_or a) e)

or_env_fault-eq-loaded :
    {A : Type 0} (m : Applied A) (a : A) → or_env_fault m ≡ loaded a → m ≡ applied a
or_env_fault-eq-loaded (applied b) a e = ap applied (sym (loaded_injective b a e))
or_env_fault-eq-loaded (faulty fault) a e = absurd (ground arith)

-- What the configuration is before the variables: the file's settings over the defaults, or the
-- defaults where there is no file.
abbrev pub Based : Surroundings → ConfigFile → Config → Type 0
Based out no_filename base = base ≡ default_config
Based out absent base = base ≡ default_config
Based out unreadable base = ⊥
Based out (content text) base = out.decode text default_config ≡ some base

read_config-Based :
    (out : Surroundings) (file : ConfigFile) (read : Config × Bool)
    → read_config out file ≡ loaded read
    → Based out file read.0 × (file ≡ absent → read.1 ≡ true)
unfolding read_config
read_config-Based out no_filename read e =
    (ap (λ r. r.0) (loaded_injective _ read e), λ other. absurd (ground arith))
read_config-Based out absent read e =
    let same = loaded_injective _ read e in (ap (λ r. r.0) same, λ here. ap (λ r. r.1) same)
read_config-Based out unreadable read e = absurd (ground arith)
read_config-Based out (content text) read e =
    (decoded-eq-loaded (out.decode text default_config) e, λ other. absurd (ground arith))
  where
    decoded-eq-loaded : (m : Option Config) → decoded m ≡ loaded read → m ≡ some read.0
    decoded-eq-loaded none e' = absurd (ground arith)
    decoded-eq-loaded (some cfg) e' = ap (λ r. some r.0) (sym (loaded_injective _ read e'))

check_source-eq-loaded :
    (missing : Bool) (values vars : Variables)
    → check_source missing values ≡ loaded vars
    → (vars ≡ values) × (missing ≡ true → vars ≢ [])
check_source-eq-loaded true [] vars e = absurd (ground arith)
check_source-eq-loaded true (v ∷ vs) vars e =
    let same = loaded_injective (v ∷ vs) vars e in
    (same, λ missing none_there. absurd (ground (arith, sym same ∙ none_there)))
check_source-eq-loaded false values vars e =
    (loaded_injective values vars e, λ other. absurd (ground arith))

unless_invalid-eq-loaded :
    (cfg cfg' : Config) (m : Option Fault)
    → unless_invalid cfg m ≡ loaded cfg'
    → (cfg' ≡ cfg) × (m ≡ none)
unless_invalid-eq-loaded cfg cfg' none e = (loaded_injective cfg cfg' e, refl)
unless_invalid-eq-loaded cfg cfg' (some fault) e = absurd (ground arith)

pub record Layered (out : Surroundings) (file : ConfigFile) (env_file : EnvFile) (cfg : Config)
    : Type 0 where
  pub base : Config
  pub based : Based out file base
  pub vars : Variables
  pub sourced : Sourced out.trim env_file out.environ vars
  pub any_source : file ≡ absent → vars ≢ []
  pub merged : Merged out.decimal out.parse_duration vars base cfg
  pub valid : validate out.outside (some cfg) ≡ none

-- A configuration that is loaded is what the variables make of the file's settings over the
-- defaults, where the process environment is before the environment file; a file that is named but
-- missing is passed over only when there are variables; and Validate accepts it.
pub load_config_with_env-Layered :
    (out : Surroundings) (file : ConfigFile) (env_file : EnvFile) (cfg : Config)
    → load_config_with_env out file env_file ≡ loaded cfg
    → Layered out file env_file cfg
unfolding load_config_with_env
load_config_with_env-Layered out file env_file cfg e =
    let (read, first, e1) = bind-eq-loaded (read_config out file) _ cfg e in
    let (values, second, e2) =
      bind-eq-loaded (or_env_fault (read_env_values out.trim env_file out.environ)) _ cfg e1 in
    let (vars, third, e3) = bind-eq-loaded (check_source read.1 values) _ cfg e2 in
    let (cfg', fourth, last) =
      bind-eq-loaded (or_env_fault (apply_env_overrides out.decimal out.parse_duration vars read.0))
        _ cfg e3 in
    let (based, missing) = read_config-Based out file read first in
    let (same_vars, some_there) = check_source-eq-loaded read.1 values vars third in
    let (same, valid) = unless_invalid-eq-loaded cfg' cfg (validate out.outside (some cfg')) last in
    record {
      base = read.0;
      based = based;
      vars = vars;
      sourced = subst (Sourced out.trim env_file out.environ) (sym same_vars) (
          read_env_values-Sourced out.trim env_file out.environ values
            (or_env_fault-eq-loaded _ values second));
      any_source = λ here. some_there (missing here);
      merged =
          apply_env_overrides-Merged out.decimal out.parse_duration vars read.0 cfg
            (or_env_fault-eq-loaded _ cfg' fourth ∙ ap applied (sym same));
      valid = ap (λ c. validate out.outside (some c)) same ∙ valid;
    }
