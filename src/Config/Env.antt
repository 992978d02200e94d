-- ===== src/Config/Env.antt =====
-- internal/config/env.go: applyEnvOverrides. Go's time.ParseDuration and the decimal text of a number
-- are the arguments `parse_duration` and `decimal`. The order in which Go's map gives the names is
-- that of the list.
pub mod Settings
pub mod Folded
pub mod Overrides
pub mod Upstreams
pub mod Merged
pub mod Values
use go_proxy_mux.Prelude.{
  ℕ, zero, suc, Bool, true, false, ◌&&◌, ◌||◌, ◌==◌, List, [], ◌∷◌, ◌++◌, Option, none, some,
  if◌then◌else◌,
}
use go_proxy_mux.Prelude.Int.{ℤ, pos, pos_part, ltb_ℤ}
use go_proxy_mux.Prelude.Bytes.{Bytes, codes, str_eq}
use go_proxy_mux.Prelude.Dict.{lookup}
use go_proxy_mux.Net.{atoi}
use go_proxy_mux.Config.{UpstreamConfig, Config, no_upstream}
use go_proxy_mux.Config.Env.Settings.{
  Variables, EnvFault, bad_count, no_url, bad_boolean, bad_integer, bad_duration, unknown,
  unknown_upstream, Applied, applied, faulty, ◌>>=◌, Setting, texts, booleans, integers, durations,
  parse_bool, apply_settings, names_of, is_any,
}

-- `strings.HasPrefix`
unfoldable pub has_prefix : Bytes → Bytes → Bool
has_prefix s [] = true
has_prefix [] (p ∷ ps) = false
has_prefix (b ∷ s) (p ∷ ps) = (b == p) && has_prefix s ps

-- The loops over the four tables.
unfoldable pub apply_plain : (Bytes → Option ℤ) → Variables → Config → Applied Config
apply_plain parse_duration vars cfg =
    apply_settings some unknown vars texts cfg
    >>= apply_settings parse_bool bad_boolean vars booleans
    >>= apply_settings atoi bad_integer vars integers
    >>= apply_settings parse_duration bad_duration vars durations

-- `MUX_UPSTREAM_<n>_`
unfoldable pub prefix_of : (ℕ → Bytes) → ℕ → Bytes
prefix_of decimal n = codes "MUX_UPSTREAM_" ++ (decimal n ++ codes "_")

unfoldable pub upstream_texts : Bytes → List (Setting UpstreamConfig Bytes)
upstream_texts prefix =
    record { name = prefix ++ codes "URL"; get = λ u. u.url; set = λ v u. record u { url = v } }
    ∷ record {
      name = prefix ++ codes "AUTH_USERNAME";
      get = λ u. u.auth.username;
      set = λ v u. record u { auth = record u.auth { username = v } };
    }
    ∷ record {
      name = prefix ++ codes "AUTH_PASSWORD";
      get = λ u. u.auth.password;
      set = λ v u. record u { auth = record u.auth { password = v } };
    }
    ∷ record {
      name = prefix ++ codes "TLS_CA_FILE";
      get = λ u. u.tls_ca_file;
      set = λ v u. record u { tls_ca_file = v };
    }
    ∷ []

unfoldable pub upstream_booleans : Bytes → List (Setting UpstreamConfig Bool)
upstream_booleans prefix =
    record {
      name = prefix ++ codes "AUTH_ENABLED";
      get = λ u. u.auth.enabled;
      set = λ v u. record u { auth = record u.auth { enabled = v } };
    }
    ∷ []

abbrev pub with_url : ℕ → UpstreamConfig → Applied UpstreamConfig
with_url n u = if str_eq u.url [] then faulty (no_url n) else applied u

-- Upstream `n`, counted from 1.
unfoldable pub read_upstream : (ℕ → Bytes) → Variables → ℕ → Applied UpstreamConfig
read_upstream decimal vars n =
    apply_settings some unknown vars (upstream_texts (prefix_of decimal n)) no_upstream
    >>= apply_settings parse_bool bad_boolean vars (upstream_booleans (prefix_of decimal n))
    >>= with_url n

unfoldable pub read_upstreams : (ℕ → Bytes) → Variables → ℕ → ℕ → Applied (List UpstreamConfig)
read_upstreams decimal vars n zero = applied []
read_upstreams decimal vars n (suc left) =
    let rest = read_upstreams decimal vars (suc n) left in
    read_upstream decimal vars n >>= λ u. rest >>= λ us. applied (u ∷ us)

-- The names that an upstream may have.
unfoldable pub upstream_names : (ℕ → Bytes) → ℕ → ℕ → List Bytes
upstream_names decimal n zero = []
upstream_names decimal n (suc left) =
    names_of (upstream_texts (prefix_of decimal n))
    ++ (names_of (upstream_booleans (prefix_of decimal n)) ++ upstream_names decimal (suc n) left)

abbrev pub in_count : Option ℤ → Applied ℕ
in_count none = faulty bad_count
in_count (some n) =
    if ltb_ℤ n (pos 0) || ltb_ℤ (pos 1024) n then faulty bad_count else applied (pos_part n)

-- The number of upstreams that the variables give, if they do.
abbrev pub count_of : Option Bytes → Applied (Option ℕ)
count_of none = applied none
count_of (some text) = in_count (atoi text) >>= λ n. applied (some n)

abbrev pub with_upstreams : (ℕ → Bytes) → Variables → Config → Option ℕ → Applied Config
with_upstreams decimal vars cfg none = applied cfg
with_upstreams decimal vars cfg (some n) =
    read_upstreams decimal vars 1 n >>= λ us. applied (record cfg { upstreams = us })

unfoldable pub plain_names : List Bytes
plain_names =
    codes "MUX_PUBLISH_HOST"
    ∷ codes "MUX_PUBLISH_PORT"
    ∷ codes "MUX_UPSTREAM_COUNT"
    ∷ (names_of texts ++ (names_of booleans ++ (names_of integers ++ names_of durations)))

abbrev pub known_names : (ℕ → Bytes) → Option ℕ → List Bytes
known_names decimal none = plain_names
known_names decimal (some n) = plain_names ++ upstream_names decimal 1 n

abbrev pub fault_of : Bytes → EnvFault
fault_of name =
    if has_prefix name (codes "MUX_UPSTREAM_") then unknown_upstream name else unknown name

-- The last loop.
unfoldable pub check_names : List Bytes → Variables → Config → Applied Config
check_names known [] cfg = applied cfg
check_names known ((name, value) ∷ vars) cfg =
    let rest = check_names known vars cfg in
    if is_any name known then rest else faulty (fault_of name)

unfoldable pub apply_env_overrides :
    (ℕ → Bytes) → (Bytes → Option ℤ) → Variables → Config → Applied Config
apply_env_overrides decimal parse_duration vars cfg =
    apply_plain parse_duration vars cfg >>= λ cfg'.
    count_of (lookup (codes "MUX_UPSTREAM_COUNT") vars) >>= λ count.
    with_upstreams decimal vars cfg' count >>= check_names (known_names decimal count) vars
