-- ===== src/Config/Tests.antt =====
-- internal/config/validate.go: runs of Validate, and the theorems at a concrete configuration.
use go_proxy_mux.Prelude.{◌≡◌, refl, ◌≢◌, false, [], some, All}
use go_proxy_mux.Prelude.Bytes.{str_eq}
use go_proxy_mux.Net.{contains}
use go_proxy_mux.Config.{default_config}
use go_proxy_mux.Config.Validate.{public_proxy, validate, has_blank, check_tls, is_local}
use go_proxy_mux.Config.Accepted.{Bounded, Guarded, validate-Bounded, validate-Guarded}
use go_proxy_mux.Config.Usable.{Usable, validate-Usable}
use go_proxy_mux.Config.Samples.{out, public_config, public_config_run}

no_login_run :
    validate out (some (record public_config { auth = default_config.auth })) ≡ some public_proxy
unfolding validate default_config has_blank check_tls is_local str_eq contains
no_login_run = refl

is_public : is_local out public_config.server.host ≡ false
unfolding is_local
is_public = refl

validate-Bounded_example : Bounded public_config
validate-Bounded_example = validate-Bounded out public_config public_config_run

validate-Guarded_example : Guarded out public_config
validate-Guarded_example = validate-Guarded out public_config public_config_run is_public

validate-Usable_example :
    (public_config.upstreams ≢ []) × All (Usable out.files) public_config.upstreams
validate-Usable_example = validate-Usable out public_config public_config_run
