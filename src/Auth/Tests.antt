-- ===== src/Auth/Tests.antt =====
-- internal/proxy/auth.go: runs of isAuthorized, and the theorem at a concrete header.
use go_proxy_mux.Prelude.{◌≡◌, refl, ◌↔◌, true, false, Option, some, length, ◌%◌, [], ◌∷◌}
use go_proxy_mux.Prelude.Bytes.{Bytes, codes, str_eq}
use go_proxy_mux.Net.{cut}
use go_proxy_mux.Config.{AuthConfig, default_config}
use go_proxy_mux.Auth
use go_proxy_mux.Auth.{is_basic, is_authorized}
use go_proxy_mux.Auth.Basic.{Login, is_authorized-eq-true_iff}

-- Texts that stand for themselves.
abbrev plain : Bytes → Option Bytes
plain text = some text

abbrev as_is : Bytes → Bytes
as_is text = text

abbrev config : AuthConfig
config = record default_config.auth {
  enabled = true;
  username = codes "me";
  password = codes "p:w";
}

right_run : is_authorized plain as_is config (codes "bAsIc me:p:w") ≡ true
unfolding is_authorized is_basic Auth.lower Auth.lower_all Auth.check_decoded Auth.matches cut
    str_eq
right_run = refl

wrong_run : is_authorized plain as_is config (codes "Basic me:p") ≡ false
unfolding is_authorized is_basic Auth.lower Auth.lower_all Auth.check_decoded Auth.matches cut
    str_eq
wrong_run = refl

wrong_scheme_run : is_authorized plain as_is config (codes "Bearer me:p:w") ≡ false
unfolding is_authorized is_basic Auth.lower Auth.lower_all str_eq
wrong_scheme_run = refl

-- A checksum of one byte.
abbrev checksum : Bytes → Bytes
checksum text = (length text % 256) ∷ []

is_authorized-eq-true_iff_example :
    (is_authorized plain checksum config (codes "Basic me:p:w") ≡ true)
    ↔ Login plain checksum config (codes "Basic me:p:w")
is_authorized-eq-true_iff_example =
    is_authorized-eq-true_iff plain checksum config (codes "Basic me:p:w")
