-- ===== src/Config/Env/Overrides.antt =====
-- internal/config/env.go: a configuration after applyEnvOverrides, field by field.
use go_proxy_mux.Prelude.{◌≡◌, refl, ap, ◌∙◌, Bool, Option, some}
use go_proxy_mux.Prelude.Int.{ℤ}
use go_proxy_mux.Prelude.Bytes.{Bytes, codes}
use go_proxy_mux.Prelude.Dict.{lookup}
use go_proxy_mux.Net.{atoi}
use go_proxy_mux.Config.{Config}
use go_proxy_mux.Config.Env.Settings.{
  Variables, applied, texts, booleans, integers, durations, parse_bool, apply_settings, bad_boolean,
  bad_integer, bad_duration, unknown,
}
use go_proxy_mux.Config.Env.Folded.{
  read_or, folded, Lawful, AllRead, bind-eq-applied, apply_settings-eq-applied,
}
use go_proxy_mux.Config.Env.{apply_plain}

abbrev text : Variables → Bytes → Bytes → Bytes
text vars name default = read_or some default (lookup name vars)

abbrev boolean : Variables → Bytes → Bool → Bool
boolean vars name default = read_or parse_bool default (lookup name vars)

abbrev integer : Variables → Bytes → ℤ → ℤ
integer vars name default = read_or atoi default (lookup name vars)

abbrev duration : (Bytes → Option ℤ) → Variables → Bytes → ℤ → ℤ
duration parse_duration vars name default = read_or parse_duration default (lookup name vars)

-- Each field is what its variable says, or what it was.
unfoldable pub overridden : (Bytes → Option ℤ) → Variables → Config → Config
overridden parse_duration vars cfg = record {
  server = record {
    port = integer vars (codes "MUX_SERVER_PORT") cfg.server.port;
    host = text vars (codes "MUX_SERVER_HOST") cfg.server.host;
    tls = record {
      cert_file = text vars (codes "MUX_SERVER_TLS_CERT_FILE") cfg.server.tls.cert_file;
      key_file = text vars (codes "MUX_SERVER_TLS_KEY_FILE") cfg.server.tls.key_file;
    };
    allow_insecure_public_http =
        boolean vars (codes "MUX_SERVER_ALLOW_INSECURE_PUBLIC_HTTP")
          cfg.server.allow_insecure_public_http;
    allow_unauthenticated_public_proxy =
        boolean vars (codes "MUX_SERVER_ALLOW_UNAUTHENTICATED_PUBLIC_PROXY")
          cfg.server.allow_unauthenticated_public_proxy;
    max_connections = integer vars (codes "MUX_SERVER_MAX_CONNECTIONS") cfg.server.max_connections;
    max_connections_per_ip =
        integer vars (codes "MUX_SERVER_MAX_CONNECTIONS_PER_IP") cfg.server.max_connections_per_ip;
    max_header_bytes =
        integer vars (codes "MUX_SERVER_MAX_HEADER_BYTES") cfg.server.max_header_bytes;
    http2_max_concurrent_streams =
        integer vars (codes "MUX_SERVER_HTTP2_MAX_CONCURRENT_STREAMS")
          cfg.server.http2_max_concurrent_streams;
    http2_send_ping_timeout =
        duration parse_duration vars (codes "MUX_SERVER_HTTP2_SEND_PING_TIMEOUT")
          cfg.server.http2_send_ping_timeout;
    http2_ping_timeout =
        duration parse_duration vars (codes "MUX_SERVER_HTTP2_PING_TIMEOUT")
          cfg.server.http2_ping_timeout;
    http2_write_byte_timeout =
        duration parse_duration vars (codes "MUX_SERVER_HTTP2_WRITE_BYTE_TIMEOUT")
          cfg.server.http2_write_byte_timeout;
    read_header_timeout =
        duration parse_duration vars (codes "MUX_SERVER_READ_HEADER_TIMEOUT")
          cfg.server.read_header_timeout;
    idle_timeout =
        duration parse_duration vars (codes "MUX_SERVER_IDLE_TIMEOUT") cfg.server.idle_timeout;
    shutdown_timeout =
        duration parse_duration vars (codes "MUX_SERVER_SHUTDOWN_TIMEOUT")
          cfg.server.shutdown_timeout;
  };
  auth = record {
    enabled = boolean vars (codes "MUX_AUTH_ENABLED") cfg.auth.enabled;
    username = text vars (codes "MUX_AUTH_USERNAME") cfg.auth.username;
    password = text vars (codes "MUX_AUTH_PASSWORD") cfg.auth.password;
    max_failed_attempts =
        integer vars (codes "MUX_AUTH_MAX_FAILED_ATTEMPTS") cfg.auth.max_failed_attempts;
    failure_window =
        duration parse_duration vars (codes "MUX_AUTH_FAILURE_WINDOW") cfg.auth.failure_window;
    block_duration =
        duration parse_duration vars (codes "MUX_AUTH_BLOCK_DURATION") cfg.auth.block_duration;
    max_tracked_ips = integer vars (codes "MUX_AUTH_MAX_TRACKED_IPS") cfg.auth.max_tracked_ips;
  };
  proxy = record {
    algorithm = text vars (codes "MUX_PROXY_ALGORITHM") cfg.proxy.algorithm;
    timeout = integer vars (codes "MUX_PROXY_TIMEOUT") cfg.proxy.timeout;
    network = text vars (codes "MUX_PROXY_NETWORK") cfg.proxy.network;
    dial_timeout =
        duration parse_duration vars (codes "MUX_PROXY_DIAL_TIMEOUT") cfg.proxy.dial_timeout;
    dial_keep_alive =
        duration parse_duration vars (codes "MUX_PROXY_DIAL_KEEP_ALIVE") cfg.proxy.dial_keep_alive;
    tls_handshake_timeout =
        duration parse_duration vars (codes "MUX_PROXY_TLS_HANDSHAKE_TIMEOUT")
          cfg.proxy.tls_handshake_timeout;
    response_header_timeout =
        duration parse_duration vars (codes "MUX_PROXY_RESPONSE_HEADER_TIMEOUT")
          cfg.proxy.response_header_timeout;
    response_body_idle_timeout =
        duration parse_duration vars (codes "MUX_PROXY_RESPONSE_BODY_IDLE_TIMEOUT")
          cfg.proxy.response_body_idle_timeout;
    idle_conn_timeout =
        duration parse_duration vars (codes "MUX_PROXY_IDLE_CONN_TIMEOUT")
          cfg.proxy.idle_conn_timeout;
    expect_continue_timeout =
        duration parse_duration vars (codes "MUX_PROXY_EXPECT_CONTINUE_TIMEOUT")
          cfg.proxy.expect_continue_timeout;
    max_idle_conns = integer vars (codes "MUX_PROXY_MAX_IDLE_CONNS") cfg.proxy.max_idle_conns;
    max_idle_conns_per_host =
        integer vars (codes "MUX_PROXY_MAX_IDLE_CONNS_PER_HOST") cfg.proxy.max_idle_conns_per_host;
    max_conns_per_host =
        integer vars (codes "MUX_PROXY_MAX_CONNS_PER_HOST") cfg.proxy.max_conns_per_host;
    max_tunnels = integer vars (codes "MUX_PROXY_MAX_TUNNELS") cfg.proxy.max_tunnels;
    max_tunnels_per_ip =
        integer vars (codes "MUX_PROXY_MAX_TUNNELS_PER_IP") cfg.proxy.max_tunnels_per_ip;
    tunnel_idle_timeout =
        duration parse_duration vars (codes "MUX_PROXY_TUNNEL_IDLE_TIMEOUT")
          cfg.proxy.tunnel_idle_timeout;
    failover_cooldown =
        duration parse_duration vars (codes "MUX_PROXY_FAILOVER_COOLDOWN")
          cfg.proxy.failover_cooldown;
  };
  upstreams = cfg.upstreams;
}

texts-Lawful : Lawful texts
texts-Lawful =
    (λ c. refl, (λ c. refl, (λ c. refl, (λ c. refl, (λ c. refl, (λ c. refl, (λ c. refl, tt)))))))

booleans-Lawful : Lawful booleans
booleans-Lawful = (λ c. refl, (λ c. refl, (λ c. refl, tt)))

integers-Lawful : Lawful integers
integers-Lawful = (
  λ c. refl,
  (
    λ c. refl,
    (
      λ c. refl,
      (
        λ c. refl,
        (
          λ c. refl,
          (
            λ c. refl,
            (
              λ c. refl,
              (λ c. refl, (λ c. refl, (λ c. refl, (λ c. refl, (λ c. refl, (λ c. refl, tt)))))),
            ),
          ),
        ),
      ),
    ),
  ),
)

durations-Lawful : Lawful durations
durations-Lawful = (
  λ c. refl,
  (
    λ c. refl,
    (
      λ c. refl,
      (
        λ c. refl,
        (
          λ c. refl,
          (
            λ c. refl,
            (
              λ c. refl,
              (
                λ c. refl,
                (
                  λ c. refl,
                  (
                    λ c. refl,
                    (
                      λ c. refl,
                      (
                        λ c. refl,
                        (λ c. refl, (λ c. refl, (λ c. refl, (λ c. refl, (λ c. refl, tt))))),
                      ),
                    ),
                  ),
                ),
              ),
            ),
          ),
        ),
      ),
    ),
  ),
)

-- What the four loops come to.
pub apply_plain-eq-applied :
    (parse_duration : Bytes → Option ℤ) (vars : Variables) (cfg cfg' : Config)
    → apply_plain parse_duration vars cfg ≡ applied cfg'
    → (cfg'
        ≡ folded parse_duration vars durations (
            folded atoi vars integers
              (folded parse_bool vars booleans (folded some vars texts cfg))))
      × AllRead parse_bool vars booleans
      × AllRead atoi vars integers
      × AllRead parse_duration vars durations
unfolding apply_plain
apply_plain-eq-applied p vars cfg cfg' e =
    let (c3, e3, last) = bind-eq-applied _ (apply_settings p bad_duration vars durations) cfg' e in
    let (c2, e2, third) = bind-eq-applied _ (apply_settings atoi bad_integer vars integers) c3 e3 in
    let (c1, first, second) =
      bind-eq-applied _ (apply_settings parse_bool bad_boolean vars booleans) c2 e2 in
    let (q1, r1) = apply_settings-eq-applied some unknown vars texts cfg c1 texts-Lawful first in
    let (q2, r2) =
      apply_settings-eq-applied parse_bool bad_boolean vars booleans c1 c2 booleans-Lawful second in
    let (q3, r3) =
      apply_settings-eq-applied atoi bad_integer vars integers c2 c3 integers-Lawful third in
    let (q4, r4) =
      apply_settings-eq-applied p bad_duration vars durations c3 cfg' durations-Lawful last in
    (
      q4
          ∙ ap (folded p vars durations)
              (q3 ∙ ap (folded atoi vars integers) (q2 ∙ ap (folded parse_bool vars booleans) q1)),
      r2,
      r3,
      r4,
    )

pub folded-overridden :
    (p : Bytes → Option ℤ) (vars : Variables) (cfg : Config)
    → folded p vars durations
        (folded atoi vars integers (folded parse_bool vars booleans (folded some vars texts cfg)))
      ≡ overridden p vars cfg
unfolding overridden
folded-overridden p vars cfg = refl
