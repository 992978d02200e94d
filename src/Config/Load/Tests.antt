-- ===== src/Config/Load/Tests.antt =====
-- internal/config/config.go and env.go: a run of LoadConfigWithEnv, and the theorems at it.
use go_proxy_mux.Prelude.{ℕ, ◌≡◌, refl, false, [], ◌∷◌, List, some, none}
use go_proxy_mux.Prelude.Int.{pos}
use go_proxy_mux.Prelude.Bytes.{Bytes, codes, str_eq}
use go_proxy_mux.Prelude.Dict.{lookup, insert}
use go_proxy_mux.Net
use go_proxy_mux.Net.{contains}
use go_proxy_mux.Config.{Config, default_config, no_upstream}
use go_proxy_mux.Config.Upstream
use go_proxy_mux.Config.Validate.{validate, has_blank, check_tls, is_local}
use go_proxy_mux.Config.Samples
use go_proxy_mux.Config.Samples.{public_config}
use go_proxy_mux.Config.Env
use go_proxy_mux.Config.Env.{apply_env_overrides}
use go_proxy_mux.Config.Env.Settings
use go_proxy_mux.Config.Env.Settings.{Variables, Applied, applied, faulty, unknown_upstream}
use go_proxy_mux.Config.Env.Merged.{Merged, apply_env_overrides-Merged}
use go_proxy_mux.Config.Env.Values
use go_proxy_mux.Config.Env.Values.{EnvFile, opened, read_env_values}
use go_proxy_mux.Config.Load
use go_proxy_mux.Config.Load.{Surroundings, content, loaded, load_config_with_env}
use go_proxy_mux.Config.Load.Layers.{Layered, load_config_with_env-Layered}

abbrev one : ℕ → Bytes
one n = codes "1"

abbrev environ : List Bytes
environ =
    codes "PATH=/bin"
    ∷ codes "MUX_PROXY_TIMEOUT=45"
    ∷ codes "MUX_UPSTREAM_COUNT=1"
    ∷ codes "MUX_UPSTREAM_1_URL=http://b"
    ∷ []

abbrev env_file : EnvFile
env_file =
    opened (codes "# mine" ∷ codes "MUX_PROXY_TIMEOUT=40" ∷ codes "MUX_AUTH_USERNAME=you" ∷ [])
      false

abbrev vars : Variables
vars =
    (codes "MUX_PROXY_TIMEOUT", codes "45")
    ∷ (codes "MUX_AUTH_USERNAME", codes "you")
    ∷ (codes "MUX_UPSTREAM_COUNT", codes "1")
    ∷ (codes "MUX_UPSTREAM_1_URL", codes "http://b")
    ∷ []

abbrev tuned : Config
tuned = record public_config {
  auth = record public_config.auth { username = codes "you" };
  proxy = record public_config.proxy { timeout = pos 45 };
  upstreams = record no_upstream { url = codes "http://b" } ∷ [];
}

abbrev out : Surroundings
out = record {
  decode = λ text base. some public_config;
  trim = λ text. text;
  decimal = one;
  parse_duration = λ text. none;
  environ = environ;
  outside = Samples.out;
}

values_run : read_env_values (λ text. text) env_file environ ≡ applied vars
unfolding read_env_values Values.read_file Values.read_lines Values.read_line Values.trim_return
    Values.valid_env_name Values.add_environ Env.has_prefix Net.cut lookup insert str_eq
values_run = refl

overrides_run : apply_env_overrides one (λ text. none) vars public_config ≡ applied tuned
unfolding apply_env_overrides Env.apply_plain Env.check_names Env.plain_names Env.upstream_names
    Env.read_upstreams Env.read_upstream Env.upstream_texts Env.upstream_booleans Env.prefix_of
    Settings.apply_settings Settings.parse_bool Net.atoi lookup str_eq
overrides_run = refl

stray_upstream_run :
    apply_env_overrides one
      (λ text. none)
      ((codes "MUX_UPSTREAM_1_URL", codes "http://b") ∷ [])
      public_config
    ≡ faulty (unknown_upstream (codes "MUX_UPSTREAM_1_URL"))
unfolding apply_env_overrides Env.apply_plain Env.check_names Env.plain_names Env.has_prefix
    Settings.apply_settings lookup str_eq
stray_upstream_run = refl

tuned_run : validate Samples.out (some tuned) ≡ none
unfolding validate default_config has_blank check_tls is_local str_eq contains
    Upstream.check_upstream Upstream.upstream_url Upstream.is_http Upstream.is_socks
    Upstream.has_extra Upstream.has_suffix Upstream.port_of Upstream.proxy_url Upstream.check_login
    Upstream.is_sample_login Upstream.login_check Upstream.check_ca Net.atoi Upstream.join_host_port
tuned_run = refl

load_run : load_config_with_env out (content []) env_file ≡ loaded tuned
unfolding load_config_with_env Load.read_config
load_run = rw (values_run, overrides_run, tuned_run) refl

apply_env_overrides-Merged_example : Merged one (λ text. none) vars public_config tuned
apply_env_overrides-Merged_example =
    apply_env_overrides-Merged one (λ text. none) vars public_config tuned overrides_run

load_config_with_env-Layered_example : Layered out (content []) env_file tuned
load_config_with_env-Layered_example =
    load_config_with_env-Layered out (content []) env_file tuned load_run
