-- ===== src/Config/Samples.antt =====
-- A configuration that Validate accepts, for the tests of several parts.
use go_proxy_mux.Prelude.{◌≡◌, refl, true, false, List, [], ◌∷◌, Option, none, some, if◌then◌else◌}
use go_proxy_mux.Prelude.Int.{pos}
use go_proxy_mux.Prelude.Bytes.{Bytes, codes, str_eq}
use go_proxy_mux.Net
use go_proxy_mux.Net.{contains}
use go_proxy_mux.Config.{UpstreamConfig, Config, default_config}
use go_proxy_mux.Config.Upstream
use go_proxy_mux.Config.Upstream.{Files, Url, bad_parts, upstream_url, accepted}
use go_proxy_mux.Config.Validate.{Outside, validate, has_blank, check_tls, is_local}

-- What url.Parse gives for the texts below.
abbrev pub plain_url : Bytes → Bytes → Bytes → Url
plain_url scheme hostname port = record {
  scheme = scheme;
  hostname = hostname;
  port = port;
  has_user = false;
  path = [];
  raw_query = [];
  fragment = [];
}

abbrev pub parse_sample : Bytes → Option Url
parse_sample text =
    if str_eq text (codes "socks5://a:9")
    then some (plain_url (codes "socks5") (codes "a") (codes "9"))
    else if str_eq text (codes "http://b")
    then some (plain_url (codes "http") (codes "b") [])
    else none

abbrev pub out : Outside
out = record {
  is_localhost = λ host. false;
  is_loopback = λ host. false;
  load_pair = λ cert key. none;
  parse_certificate = λ leaf. none;
  now = pos 0;
  files = record {
    parse_url = parse_sample;
    read_file = λ name. none;
    has_certificates = λ file. false;
  };
}

abbrev pub upstreams : List UpstreamConfig
upstreams =
    record {
      url = codes "socks5://a:9";
      auth = record { enabled = true; username = codes "u"; password = codes "p" };
      tls_ca_file = [];
    }
    ∷ record {
      url = codes "http://b";
      auth = record { enabled = false; username = []; password = [] };
      tls_ca_file = [];
    }
    ∷ []

-- A public listener that allows public HTTP and asks for a login.
abbrev pub public_config : Config
public_config = record default_config {
  server = record default_config.server {
    host = codes "0.0.0.0";
    allow_insecure_public_http = true;
  };
  auth = record default_config.auth {
    enabled = true;
    username = codes "me";
    password = codes "pw";
  };
  upstreams = upstreams;
}

pub public_config_run : validate out (some public_config) ≡ none
unfolding validate default_config has_blank check_tls is_local str_eq contains
    Upstream.check_upstream upstream_url Upstream.is_http Upstream.is_socks Upstream.has_extra
    Upstream.has_suffix Upstream.port_of Upstream.proxy_url Upstream.check_login
    Upstream.is_sample_login Upstream.login_check Upstream.check_ca Net.atoi Upstream.join_host_port
public_config_run = refl
