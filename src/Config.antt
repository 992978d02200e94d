-- ===== src/Config.antt =====
-- internal/config/config.go: the configuration's types and its defaults. A Go int or Duration is a
-- ℤ (a Duration in nanoseconds), a string a list of bytes. The yaml tags are left out.
pub mod Upstream
pub mod Validate
pub mod Accepted
pub mod Usable
pub mod Samples
pub mod Env
pub mod Load
mod Tests
use go_proxy_mux.Prelude.{ℕ, ◌*◌, Bool, false, List, []}
use go_proxy_mux.Prelude.Int.{ℤ, pos}
use go_proxy_mux.Prelude.Bytes.{Bytes, codes}

pub record TlsConfig : Type 0 where
  pub cert_file : Bytes
  pub key_file : Bytes

pub record ServerConfig : Type 0 where
  pub port : ℤ
  pub host : Bytes
  pub tls : TlsConfig
  pub allow_insecure_public_http : Bool
  pub allow_unauthenticated_public_proxy : Bool
  pub max_connections : ℤ
  pub max_connections_per_ip : ℤ
  pub max_header_bytes : ℤ
  pub http2_max_concurrent_streams : ℤ
  pub http2_send_ping_timeout : ℤ
  pub http2_ping_timeout : ℤ
  pub http2_write_byte_timeout : ℤ
  pub read_header_timeout : ℤ
  pub idle_timeout : ℤ
  pub shutdown_timeout : ℤ

pub record AuthConfig : Type 0 where
  pub enabled : Bool
  pub username : Bytes
  pub password : Bytes
  pub max_failed_attempts : ℤ
  pub failure_window : ℤ
  pub block_duration : ℤ
  pub max_tracked_ips : ℤ

pub record ProxyConfig : Type 0 where
  pub algorithm : Bytes
  pub timeout : ℤ
  pub network : Bytes
  pub dial_timeout : ℤ
  pub dial_keep_alive : ℤ
  pub tls_handshake_timeout : ℤ
  pub response_header_timeout : ℤ
  pub response_body_idle_timeout : ℤ
  pub idle_conn_timeout : ℤ
  pub expect_continue_timeout : ℤ
  pub max_idle_conns : ℤ
  pub max_idle_conns_per_host : ℤ
  pub max_conns_per_host : ℤ
  pub max_tunnels : ℤ
  pub max_tunnels_per_ip : ℤ
  pub tunnel_idle_timeout : ℤ
  pub failover_cooldown : ℤ

pub record UpstreamAuth : Type 0 where
  pub enabled : Bool
  pub username : Bytes
  pub password : Bytes

pub record UpstreamConfig : Type 0 where
  pub url : Bytes
  pub auth : UpstreamAuth
  pub tls_ca_file : Bytes

pub record Config : Type 0 where
  pub server : ServerConfig
  pub auth : AuthConfig
  pub proxy : ProxyConfig
  pub upstreams : List UpstreamConfig

-- Go's zero value of the struct.
abbrev pub no_upstream : UpstreamConfig
no_upstream = record {
  url = [];
  auth = record { enabled = false; username = []; password = [] };
  tls_ca_file = [];
}

abbrev seconds : ℕ → ℤ
seconds n = pos (n * 1_000_000_000)

abbrev minutes : ℕ → ℤ
minutes n = seconds (n * 60)

-- `Default`.
abbrev pub default_config : Config
default_config = record {
  server = record {
    port = pos 8380;
    host = codes "127.0.0.1";
    tls = record { cert_file = []; key_file = [] };
    allow_insecure_public_http = false;
    allow_unauthenticated_public_proxy = false;
    max_connections = pos 1024;
    max_connections_per_ip = pos 128;
    max_header_bytes = pos 65536;
    http2_max_concurrent_streams = pos 0;
    http2_send_ping_timeout = minutes 1;
    http2_ping_timeout = seconds 15;
    http2_write_byte_timeout = seconds 30;
    read_header_timeout = seconds 15;
    idle_timeout = minutes 2;
    shutdown_timeout = seconds 15;
  };
  auth = record {
    enabled = false;
    username = [];
    password = [];
    max_failed_attempts = pos 10;
    failure_window = minutes 1;
    block_duration = minutes 5;
    max_tracked_ips = pos 4096;
  };
  proxy = record {
    algorithm = codes "roundrobin";
    timeout = pos 30;
    network = codes "auto";
    dial_timeout = seconds 10;
    dial_keep_alive = seconds 30;
    tls_handshake_timeout = seconds 10;
    response_header_timeout = seconds 30;
    response_body_idle_timeout = minutes 2;
    idle_conn_timeout = seconds 90;
    expect_continue_timeout = seconds 1;
    max_idle_conns = pos 100;
    max_idle_conns_per_host = pos 10;
    max_conns_per_host = pos 0;
    max_tunnels = pos 256;
    max_tunnels_per_ip = pos 128;
    tunnel_idle_timeout = minutes 2;
    failover_cooldown = seconds 30;
  };
  upstreams = [];
}
