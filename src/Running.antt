-- ===== src/Running.antt =====
-- internal/proxy/run.go: Run, newHTTPServer and effectiveHTTP2MaxConcurrentStreams. What net.Listen,
-- the http.Server and the context do is given; the events are what Run does, in order.
pub mod Order
mod Tests
use go_proxy_mux.Prelude.{
  Bool, true, false, not, ◌&&◌, ◌||◌, List, [], ◌∷◌, ◌++◌, Option, none, some, if◌then◌else◌,
}
use go_proxy_mux.Prelude.Int.{ℤ, pos, ltb_ℤ}
use go_proxy_mux.Prelude.Bytes.{Bytes, str_eq}
use go_proxy_mux.Config.{Config}
use go_proxy_mux.Config.Validate.{Outside}
use go_proxy_mux.Limits.{Limiter, new_concurrent_limiter}
use go_proxy_mux.Serve.{NewResult, created, invalid, unbuilt, new_proxy_server}

abbrev pub smaller : ℤ → ℤ → ℤ
smaller a b = if ltb_ℤ b a then b else a

unfoldable pub effective_http2_max_concurrent_streams : Config → ℤ
effective_http2_max_concurrent_streams cfg =
    if ltb_ℤ (pos 0) cfg.server.http2_max_concurrent_streams
    then cfg.server.http2_max_concurrent_streams
    else smaller cfg.proxy.max_tunnels cfg.proxy.max_tunnels_per_ip

pub record HttpServer : Type 0 where
  pub read_header_timeout : ℤ
  pub idle_timeout : ℤ
  pub max_header_bytes : ℤ
  pub max_concurrent_streams : ℤ
  pub send_ping_timeout : ℤ
  pub ping_timeout : ℤ
  pub write_byte_timeout : ℤ

unfoldable pub new_http_server : Config → HttpServer
new_http_server cfg = record {
  read_header_timeout = cfg.server.read_header_timeout;
  idle_timeout = cfg.server.idle_timeout;
  max_header_bytes = cfg.server.max_header_bytes;
  max_concurrent_streams = effective_http2_max_concurrent_streams cfg;
  send_ping_timeout = cfg.server.http2_send_ping_timeout;
  ping_timeout = cfg.server.http2_ping_timeout;
  write_byte_timeout = cfg.server.http2_write_byte_timeout;
}

-- `serving` has the server, the listener's limiter, and whether it serves TLS.
pub data Event : Type 0 where
  serving : HttpServer → Limiter → Bool → Event
  tunnels_closed shut_down server_closed tunnels_awaited serve_returned idle_closed : Event

pub data RunError : Type 0 where
  not_created not_listening not_serving : RunError
  joined : Bool → Bool → Bool → RunError

pub record Ran : Type 0 where
  pub events : List Event
  pub error : Option RunError

-- `serve_closed`: what Serve returns is http.ErrServerClosed. `tunnels_end`: waitFor gives no error.
pub record Surroundings : Type 0 where
  pub listens : Bool
  pub serve_first : Bool
  pub serve_closed : Bool
  pub shutdown_fails : Bool
  pub tunnels_end : Bool

-- Serve has returned before the context was done.
abbrev pub after_serve : Surroundings → Ran
after_serve out = record {
  events = tunnels_closed ∷ tunnels_awaited ∷ [];
  error = if out.serve_closed then none else some not_serving;
}

-- `errors.Join` of no errors is nil.
abbrev pub join : Bool → Bool → Bool → Option RunError
join shutdown tunnels serve =
    if shutdown || (tunnels || serve) then some (joined shutdown tunnels serve) else none

abbrev pub after_cancel : Surroundings → Ran
after_cancel out = record {
  events =
      tunnels_closed
      ∷ shut_down
      ∷ ((if out.shutdown_fails then server_closed ∷ [] else [])
          ++ tunnels_awaited ∷ serve_returned ∷ []);
  error = join out.shutdown_fails (not out.tunnels_end) (not out.serve_closed);
}

abbrev pub before_and_behind : Event → Ran → Ran
before_and_behind first t = record {
  events = first ∷ (t.events ++ idle_closed ∷ []);
  error = t.error;
}

abbrev pub limiter_of : Config → Limiter
limiter_of cfg = new_concurrent_limiter cfg.server.max_connections cfg.server.max_connections_per_ip

unfoldable pub serve : Surroundings → Config → Ran
serve out cfg =
    before_and_behind
      (serving (new_http_server cfg) (limiter_of cfg) (not (str_eq cfg.server.tls.cert_file [])))
      (if out.serve_first then after_serve out else after_cancel out)

abbrev pub on_created : Surroundings → Config → NewResult → Ran
on_created out cfg (invalid fault) = record { events = []; error = some not_created }
on_created out cfg (unbuilt fault) = record { events = []; error = some not_created }
on_created out cfg (created server) =
    if out.listens
    then serve out cfg
    else record { events = idle_closed ∷ []; error = some not_listening }

unfoldable pub run : Surroundings → Outside → Bool → Config → Ran
run out outside roots_fail cfg = on_created out cfg (new_proxy_server outside roots_fail cfg)
