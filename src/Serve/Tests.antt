-- ===== src/Serve/Tests.antt =====
-- internal/proxy/server.go: runs of NewProxyServer and ServeHTTP, and the theorems at concrete
-- inputs.
use go_proxy_mux.Prelude.{◌-◌, ◌≡◌, refl, inl, true, false, [], ◌∷◌, none, some, arith}
use go_proxy_mux.Prelude.Int.{pos}
use go_proxy_mux.Prelude.Bytes.{Bytes, codes, str_eq}
use go_proxy_mux.Config.Samples.{out, public_config, public_config_run}
use go_proxy_mux.Config.Usable
use go_proxy_mux.Auth
use go_proxy_mux.AuthLimit.{new_auth_failure_limiter}
use go_proxy_mux.AuthLimit.Refines.{new-IsValid}
use go_proxy_mux.Connect
use go_proxy_mux.Forward
use go_proxy_mux.Socks.Dial.{bad_network}
use go_proxy_mux.Serve.{
  ProxyServer, server_of, created, new_proxy_server, Request, Surroundings, is_valid, serve_http,
}
use go_proxy_mux.Serve.Transports.{by_socks, dialed_network, transport_of}
use go_proxy_mux.Serve.Suited.{Fitted}
use go_proxy_mux.Serve.Build.{new_proxy_server-Fitted}
use go_proxy_mux.Serve.Admission.{TurnedAway, refusal, block_of, serve_http-TurnedAway}
use go_proxy_mux.Prelude.{◌-◌, List, get_or}
use go_proxy_mux.Config.{no_upstream}
use go_proxy_mux.Net
use go_proxy_mux.Config.Upstream
use go_proxy_mux.Config.Upstream.{ProxyUrl}

-- Nothing answers.
abbrev silent : Surroundings
silent = record {
  decode = λ text. some text;
  sum = λ text. text;
  attempted_at = pos 100;
  chosen_at = pos 100;
  draw = λ n. n - 1;
  connect = record {
    can_hijack = true;
    setup = λ n i. Connect.failed;
    failed_at = λ n. pos 100;
    chosen_at = λ n. pos 100;
    draw = λ n. n - 1;
  };
  forward = record {
    canonical = λ name. name;
    trim = λ text. text;
    hostname = λ host. host;
    did = λ n i. record { response = none; error = some Forward.failed };
    timer_first = λ n i. false;
    client_gone = λ n. false;
    copied = λ n i. true;
    failed_at = λ n. pos 100;
    chosen_at = λ n. pos 100;
    draw = λ n. n - 1;
  };
}

abbrev request : Bytes → Request
request login = record {
  method = codes "GET";
  authorization = login;
  remote_addr = codes "10.0.0.1:5000";
  host = codes "h";
  url_scheme = codes "http";
  url_host = codes "h";
  url_rest = codes "/";
  request_uri = codes "http://h/";
  proto_major = pos 1;
  header = [];
  content_length = pos 0;
  body = none;
}

abbrev server : ProxyServer
server = server_of public_config []

no_login : is_valid silent server (request []) ≡ false
unfolding Auth.is_authorized Auth.is_basic
no_login = refl

new_proxy_server-Fitted_example :
    (s : ProxyServer) × (new_proxy_server out false public_config ≡ created s)
    × (s.balancer.upstreams ≡ public_config.upstreams)
    × Fitted public_config.proxy out.files public_config.upstreams s.transports
new_proxy_server-Fitted_example = new_proxy_server-Fitted out public_config public_config_run

-- net/http asks a SOCKS transport for "tcp", whatever the configuration's network is.
socks_network_run :
    dialed_network
      (by_socks
        (codes "socks5")
        (codes "a:9")
        (Usable.credentials_of (record { enabled = false; username = []; password = [] })))
      (codes "tcp")
    ≡ some (codes "tcp")
unfolding dialed_network bad_network str_eq
socks_network_run = refl

serve_http-TurnedAway_example :
    TurnedAway server
      (refusal (block_of silent server (request []) (new_auth_failure_limiter public_config.auth)))
      (serve_http silent server (request []))
serve_http-TurnedAway_example =
    serve_http-TurnedAway silent server (request []) (new_auth_failure_limiter public_config.auth)
      refl refl (new-IsValid public_config.auth (omega arith)) (inl no_login)

-- What the sample's URLs are parsed to.
abbrev socks_url : ProxyUrl
socks_url = record {
  scheme = codes "socks5";
  host = codes "a:9";
  user = some (codes "u", codes "p");
}

abbrev http_url : ProxyUrl
http_url = record { scheme = codes "http"; host = codes "b:80"; user = none }

abbrev made_server : ProxyServer
made_server = server_of public_config (
    transport_of public_config.proxy (get_or public_config.upstreams 0 no_upstream) socks_url none
    ∷ transport_of public_config.proxy (get_or public_config.upstreams 1 no_upstream) http_url none
    ∷ [])

abbrev requests : List (Surroundings × Request)
requests = (silent, request []) ∷ (silent, request (codes "Basic me:pw")) ∷ []
