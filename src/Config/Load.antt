-- ===== src/Config/Load.antt =====
-- internal/config/config.go: LoadConfigWithEnv. yaml.UnmarshalStrict is the argument `decode`, which
-- is given the defaults; what reading the files comes to is given.
pub mod Layers
mod Tests
use go_proxy_mux.Prelude.{ℕ, Bool, true, false, List, [], ◌∷◌, Option, none, some, if◌then◌else◌}
use go_proxy_mux.Prelude.Int.{ℤ}
use go_proxy_mux.Prelude.Bytes.{Bytes}
use go_proxy_mux.Config.{Config, default_config}
use go_proxy_mux.Config.Validate.{Fault, Outside, validate}
use go_proxy_mux.Config.Env.Settings.{Variables, EnvFault, Applied, applied, faulty}
use go_proxy_mux.Config.Env.{apply_env_overrides}
use go_proxy_mux.Config.Env.Values.{EnvFile, read_env_values}

-- What reading the configuration's file comes to.
pub data ConfigFile : Type 0 where
  no_filename absent unreadable : ConfigFile
  content : Bytes → ConfigFile

pub data LoadFault : Type 0 where
  not_read not_parsed : LoadFault
  from_env : EnvFault → LoadFault
  not_valid : Fault → LoadFault

pub data Loaded (A : Type 0) : Type 0 where
  loaded : A → Loaded A
  failed : LoadFault → Loaded A

infixl 5 ◌>>=◌
abbrev pub ◌>>=◌ : {A B : Type 0} → Loaded A → (A → Loaded B) → Loaded B
loaded a >>= f = f a
failed e >>= f = failed e

-- Go's own libraries, and what the program reads of its surroundings.
pub record Surroundings : Type 0 where
  pub decode : Bytes → Config → Option Config
  pub trim : Bytes → Bytes
  pub decimal : ℕ → Bytes
  pub parse_duration : Bytes → Option ℤ
  pub environ : List Bytes
  pub outside : Outside

abbrev pub decoded : Option Config → Loaded (Config × Bool)
decoded none = failed not_parsed
decoded (some cfg) = loaded (cfg, false)

-- The configuration so far, and whether its file is missing.
unfoldable pub read_config : Surroundings → ConfigFile → Loaded (Config × Bool)
read_config out no_filename = loaded (default_config, false)
read_config out absent = loaded (default_config, true)
read_config out unreadable = failed not_read
read_config out (content text) = decoded (out.decode text default_config)

abbrev pub or_env_fault : {A : Type 0} → Applied A → Loaded A
or_env_fault (applied a) = loaded a
or_env_fault (faulty e) = failed (from_env e)

abbrev pub check_source : Bool → Variables → Loaded Variables
check_source true [] = failed not_read
check_source true (v ∷ vs) = loaded (v ∷ vs)
check_source false vars = loaded vars

abbrev pub unless_invalid : Config → Option Fault → Loaded Config
unless_invalid cfg none = loaded cfg
unless_invalid cfg (some fault) = failed (not_valid fault)

unfoldable pub load_config_with_env : Surroundings → ConfigFile → EnvFile → Loaded Config
load_config_with_env out file env_file = do
  (base, missing) ← read_config out file
  values ← or_env_fault (read_env_values out.trim env_file out.environ)
  vars ← check_source missing values
  cfg ← or_env_fault (apply_env_overrides out.decimal out.parse_duration vars base)
  unless_invalid cfg (validate out.outside (some cfg))
