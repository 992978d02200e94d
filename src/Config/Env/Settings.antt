-- ===== src/Config/Env/Settings.antt =====
-- internal/config/env.go: the settings of applyEnvOverrides but for the upstreams, and how a table of
-- them is applied. Go's time.ParseDuration is the argument `parse_duration`.
use go_proxy_mux.Prelude.{
  ℕ, Bool, true, false, ◌||◌, List, [], ◌∷◌, Option, none, some, map, if◌then◌else◌,
}
use go_proxy_mux.Prelude.Int.{ℤ}
use go_proxy_mux.Prelude.Bytes.{Bytes, codes, str_eq}
use go_proxy_mux.Prelude.Dict.{lookup}
use go_proxy_mux.Config.{Config, ServerConfig, AuthConfig, ProxyConfig}

-- The map from names to values.
abbrev pub Variables : Type 0
Variables = List (Bytes × Bytes)

-- Why the settings are refused; an upstream is known by its index, a line by its number.
pub data EnvFault : Type 0 where
  unreadable_file bad_count : EnvFault
  bad_line no_url : ℕ → EnvFault
  duplicate bad_boolean bad_integer bad_duration unknown unknown_upstream : Bytes → EnvFault

pub data Applied (A : Type 0) : Type 0 where
  applied : A → Applied A
  faulty : EnvFault → Applied A

infixl 5 ◌>>=◌
abbrev pub ◌>>=◌ : {A B : Type 0} → Applied A → (A → Applied B) → Applied B
applied a >>= f = f a
faulty e >>= f = faulty e

-- A variable's name, and the field of `C` that it sets.
pub record Setting (C A : Type 0) : Type 0 where
  pub name : Bytes
  pub get : C → A
  pub set : A → C → C

abbrev server_setting :
    {A : Type 0} → Bytes → (ServerConfig → A) → (A → ServerConfig → ServerConfig) → Setting Config A
server_setting name get set = record {
  name = name;
  get = λ c. get c.server;
  set = λ v c. record c { server = set v c.server };
}

abbrev auth_setting :
    {A : Type 0} → Bytes → (AuthConfig → A) → (A → AuthConfig → AuthConfig) → Setting Config A
auth_setting name get set = record {
  name = name;
  get = λ c. get c.auth;
  set = λ v c. record c { auth = set v c.auth };
}

abbrev proxy_setting :
    {A : Type 0} → Bytes → (ProxyConfig → A) → (A → ProxyConfig → ProxyConfig) → Setting Config A
proxy_setting name get set = record {
  name = name;
  get = λ c. get c.proxy;
  set = λ v c. record c { proxy = set v c.proxy };
}

abbrev pub texts : List (Setting Config Bytes)
texts =
    server_setting (codes "MUX_SERVER_HOST") (λ c. c.host) (λ v c. record c { host = v })
    ∷ server_setting (codes "MUX_SERVER_TLS_CERT_FILE") (λ c. c.tls.cert_file)
        (λ v c. record c { tls = record c.tls { cert_file = v } })
    ∷ server_setting (codes "MUX_SERVER_TLS_KEY_FILE") (λ c. c.tls.key_file)
        (λ v c. record c { tls = record c.tls { key_file = v } })
    ∷ auth_setting (codes "MUX_AUTH_USERNAME") (λ c. c.username) (λ v c. record c { username = v })
    ∷ auth_setting (codes "MUX_AUTH_PASSWORD") (λ c. c.password) (λ v c. record c { password = v })
    ∷ proxy_setting (codes "MUX_PROXY_ALGORITHM") (λ c. c.algorithm)
        (λ v c. record c { algorithm = v })
    ∷ proxy_setting (codes "MUX_PROXY_NETWORK") (λ c. c.network) (λ v c. record c { network = v })
    ∷ []

abbrev pub booleans : List (Setting Config Bool)
booleans =
    server_setting (codes "MUX_SERVER_ALLOW_INSECURE_PUBLIC_HTTP")
      (λ c. c.allow_insecure_public_http) (λ v c. record c { allow_insecure_public_http = v })
    ∷ server_setting (codes "MUX_SERVER_ALLOW_UNAUTHENTICATED_PUBLIC_PROXY")
        (λ c. c.allow_unauthenticated_public_proxy)
        (λ v c. record c { allow_unauthenticated_public_proxy = v })
    ∷ auth_setting (codes "MUX_AUTH_ENABLED") (λ c. c.enabled) (λ v c. record c { enabled = v })
    ∷ []

abbrev pub integers : List (Setting Config ℤ)
integers =
    server_setting (codes "MUX_SERVER_PORT") (λ c. c.port) (λ v c. record c { port = v })
    ∷ server_setting (codes "MUX_SERVER_MAX_CONNECTIONS") (λ c. c.max_connections)
        (λ v c. record c { max_connections = v })
    ∷ server_setting (codes "MUX_SERVER_MAX_CONNECTIONS_PER_IP") (λ c. c.max_connections_per_ip)
        (λ v c. record c { max_connections_per_ip = v })
    ∷ server_setting (codes "MUX_SERVER_MAX_HEADER_BYTES") (λ c. c.max_header_bytes)
        (λ v c. record c { max_header_bytes = v })
    ∷ server_setting (codes "MUX_SERVER_HTTP2_MAX_CONCURRENT_STREAMS")
        (λ c. c.http2_max_concurrent_streams) (λ v c. record c { http2_max_concurrent_streams = v })
    ∷ proxy_setting (codes "MUX_PROXY_TIMEOUT") (λ c. c.timeout) (λ v c. record c { timeout = v })
    ∷ auth_setting (codes "MUX_AUTH_MAX_FAILED_ATTEMPTS") (λ c. c.max_failed_attempts)
        (λ v c. record c { max_failed_attempts = v })
    ∷ auth_setting (codes "MUX_AUTH_MAX_TRACKED_IPS") (λ c. c.max_tracked_ips)
        (λ v c. record c { max_tracked_ips = v })
    ∷ proxy_setting (codes "MUX_PROXY_MAX_IDLE_CONNS") (λ c. c.max_idle_conns)
        (λ v c. record c { max_idle_conns = v })
    ∷ proxy_setting (codes "MUX_PROXY_MAX_IDLE_CONNS_PER_HOST") (λ c. c.max_idle_conns_per_host)
        (λ v c. record c { max_idle_conns_per_host = v })
    ∷ proxy_setting (codes "MUX_PROXY_MAX_CONNS_PER_HOST") (λ c. c.max_conns_per_host)
        (λ v c. record c { max_conns_per_host = v })
    ∷ proxy_setting (codes "MUX_PROXY_MAX_TUNNELS") (λ c. c.max_tunnels)
        (λ v c. record c { max_tunnels = v })
    ∷ proxy_setting (codes "MUX_PROXY_MAX_TUNNELS_PER_IP") (λ c. c.max_tunnels_per_ip)
        (λ v c. record c { max_tunnels_per_ip = v })
    ∷ []

abbrev pub durations : List (Setting Config ℤ)
durations =
    server_setting (codes "MUX_SERVER_READ_HEADER_TIMEOUT") (λ c. c.read_header_timeout)
      (λ v c. record c { read_header_timeout = v })
    ∷ server_setting (codes "MUX_SERVER_IDLE_TIMEOUT") (λ c. c.idle_timeout)
        (λ v c. record c { idle_timeout = v })
    ∷ server_setting (codes "MUX_SERVER_SHUTDOWN_TIMEOUT") (λ c. c.shutdown_timeout)
        (λ v c. record c { shutdown_timeout = v })
    ∷ server_setting (codes "MUX_SERVER_HTTP2_SEND_PING_TIMEOUT") (λ c. c.http2_send_ping_timeout)
        (λ v c. record c { http2_send_ping_timeout = v })
    ∷ server_setting (codes "MUX_SERVER_HTTP2_PING_TIMEOUT") (λ c. c.http2_ping_timeout)
        (λ v c. record c { http2_ping_timeout = v })
    ∷ server_setting (codes "MUX_SERVER_HTTP2_WRITE_BYTE_TIMEOUT") (λ c. c.http2_write_byte_timeout)
        (λ v c. record c { http2_write_byte_timeout = v })
    ∷ proxy_setting (codes "MUX_PROXY_DIAL_TIMEOUT") (λ c. c.dial_timeout)
        (λ v c. record c { dial_timeout = v })
    ∷ proxy_setting (codes "MUX_PROXY_DIAL_KEEP_ALIVE") (λ c. c.dial_keep_alive)
        (λ v c. record c { dial_keep_alive = v })
    ∷ proxy_setting (codes "MUX_PROXY_TLS_HANDSHAKE_TIMEOUT") (λ c. c.tls_handshake_timeout)
        (λ v c. record c { tls_handshake_timeout = v })
    ∷ proxy_setting (codes "MUX_PROXY_RESPONSE_HEADER_TIMEOUT") (λ c. c.response_header_timeout)
        (λ v c. record c { response_header_timeout = v })
    ∷ proxy_setting (codes "MUX_PROXY_RESPONSE_BODY_IDLE_TIMEOUT")
        (λ c. c.response_body_idle_timeout) (λ v c. record c { response_body_idle_timeout = v })
    ∷ proxy_setting (codes "MUX_PROXY_IDLE_CONN_TIMEOUT") (λ c. c.idle_conn_timeout)
        (λ v c. record c { idle_conn_timeout = v })
    ∷ proxy_setting (codes "MUX_PROXY_EXPECT_CONTINUE_TIMEOUT") (λ c. c.expect_continue_timeout)
        (λ v c. record c { expect_continue_timeout = v })
    ∷ proxy_setting (codes "MUX_PROXY_TUNNEL_IDLE_TIMEOUT") (λ c. c.tunnel_idle_timeout)
        (λ v c. record c { tunnel_idle_timeout = v })
    ∷ proxy_setting (codes "MUX_PROXY_FAILOVER_COOLDOWN") (λ c. c.failover_cooldown)
        (λ v c. record c { failover_cooldown = v })
    ∷ auth_setting (codes "MUX_AUTH_FAILURE_WINDOW") (λ c. c.failure_window)
        (λ v c. record c { failure_window = v })
    ∷ auth_setting (codes "MUX_AUTH_BLOCK_DURATION") (λ c. c.block_duration)
        (λ v c. record c { block_duration = v })
    ∷ []

-- Go's strconv.ParseBool.
abbrev pub is_any : Bytes → List Bytes → Bool
is_any text [] = false
is_any text (t ∷ ts) = str_eq text t || is_any text ts

unfoldable pub parse_bool : Bytes → Option Bool
parse_bool text =
    if is_any text
      (codes "1" ∷ codes "t" ∷ codes "T" ∷ codes "true" ∷ codes "TRUE" ∷ codes "True" ∷ [])
    then some true
    else if is_any text
        (codes "0" ∷ codes "f" ∷ codes "F" ∷ codes "false" ∷ codes "FALSE" ∷ codes "False" ∷ [])
    then some false
    else none

abbrev pub parsed : {C A : Type 0} → Setting C A → EnvFault → C → Option A → Applied C
parsed s fault c none = faulty fault
parsed s fault c (some v) = applied (s.set v c)

-- A variable that is not there leaves the field.
abbrev pub apply_text :
    {C A : Type 0}
    → (Bytes → Option A)
    → (Bytes → EnvFault)
    → Setting C A
    → C
    → Option Bytes
    → Applied C
apply_text parse fault s c none = applied c
apply_text parse fault s c (some text) = parsed s (fault s.name) c (parse text)

-- One of the loops over a table.
unfoldable pub apply_settings :
    {C A : Type 0}
    → (Bytes → Option A)
    → (Bytes → EnvFault)
    → Variables
    → List (Setting C A)
    → C
    → Applied C
apply_settings parse fault vars [] c = applied c
apply_settings parse fault vars (s ∷ ss) c =
    apply_text parse fault s c (lookup s.name vars) >>= apply_settings parse fault vars ss

abbrev pub names_of : {C A : Type 0} → List (Setting C A) → List Bytes
names_of = map (λ s. s.name)
