-- ===== src/Running/Order.antt =====
-- internal/proxy/run.go: what Run serves with, and the order in which it stops.
use go_proxy_mux.Prelude.{
  ◌≡◌, ◌⊎◌, ◌↔◌, refl, ap, Bool, true, false, not, ◌&&◌, ◌||◌, inl, inr, List, [], ◌∷◌, ◌++◌,
  Option, none, some, arith, if◌then◌else◌,
}
use go_proxy_mux.Prelude.Int.{pos, ◌≤ℤ◌}
use go_proxy_mux.Prelude.Bytes.{str_eq}
use go_proxy_mux.Config.{Config}
use go_proxy_mux.Config.Validate.{Fault, Outside, validate}
use go_proxy_mux.Config.Accepted.{Bounded, validate-Bounded}
use go_proxy_mux.Serve.{
  NewResult, created, invalid, unbuilt, ProxyServer, with_checked, new_proxy_server,
}
use go_proxy_mux.Running.{
  effective_http2_max_concurrent_streams, new_http_server, Event, serving, tunnels_closed,
  shut_down, server_closed, tunnels_awaited, serve_returned, idle_closed, RunError, not_created,
  not_listening, Ran, Surroundings, after_serve, after_cancel, limiter_of, serve, on_created, run,
}

-- Every part of the stop that counts has gone well.
abbrev pub went_well : Surroundings → Bool
went_well out = out.serve_closed && (out.serve_first || (not out.shutdown_fails && out.tunnels_end))

-- Run has never served, and returns an error; or it has served a configuration that Validate
-- accepts.
pub data Runs (out : Surroundings) (outside : Outside) (cfg : Config) (t : Ran) : Type 0 where
  never :
      (fault : RunError)
      → t.error ≡ some fault
      → (t.events ≡ []) ⊎ (t.events ≡ idle_closed ∷ [])
      → Runs out outside cfg t
  has_served :
      (tls : Bool) (between : List Event)
      → validate outside (some cfg) ≡ none
      → pos 1 ≤ℤ (new_http_server cfg).max_concurrent_streams
      → (new_http_server cfg).max_concurrent_streams ≤ℤ cfg.proxy.max_tunnels_per_ip
      → t.events
        ≡ serving (new_http_server cfg) (limiter_of cfg) tls
          ∷ tunnels_closed
          ∷ (between ++ idle_closed ∷ [])
      → (t.error ≡ none) ↔ (went_well out ≡ true)
      → Runs out outside cfg t

-- A server is made of a configuration that Validate accepts.
created-validate :
    (outside : Outside) (roots_fail : Bool) (cfg : Config) (server : ProxyServer) (m : Option Fault)
    → with_checked outside roots_fail cfg m ≡ created server
    → m ≡ none
created-validate outside roots_fail cfg server none e = refl
created-validate outside roots_fail cfg server (some fault) e = absurd (ground arith)

streams_bounds :
    (cfg : Config)
    → Bounded cfg
    → (pos 1 ≤ℤ effective_http2_max_concurrent_streams cfg)
      × (effective_http2_max_concurrent_streams cfg ≤ℤ cfg.proxy.max_tunnels_per_ip)
unfolding effective_http2_max_concurrent_streams
streams_bounds cfg b =
    let per_ip = b.tunnels_per_ip in
    let in_all = b.tunnels_in_all in
    let streams = b.streams in let tunnels = b.tunnels in (ground arith, ground arith)

-- What Run has done when it is over, behind the start.
stops : Surroundings → Ran
stops out = if out.serve_first then after_serve out else after_cancel out

stops_well : (out : Surroundings) → ((stops out).error ≡ none) ↔ (went_well out ≡ true)
unfolding stops
stops_well out = ground arith

closes_first :
    (out : Surroundings) → (between : List Event) × ((stops out).events ≡ tunnels_closed ∷ between)
unfolding stops
closes_first out = chosen out.serve_first
  where
    chosen :
        (first : Bool)
        → (between : List Event) × ((if first then after_serve out else after_cancel out).events
            ≡ tunnels_closed ∷ between)
    chosen true = (tunnels_awaited ∷ [], refl)
    chosen false = (
      shut_down
          ∷ ((if out.shutdown_fails then server_closed ∷ [] else [])
              ++ tunnels_awaited ∷ serve_returned ∷ []),
      refl,
    )

on_created-Runs :
    (out : Surroundings) (outside : Outside) (cfg : Config) (m : NewResult)
    → ((server : ProxyServer) → m ≡ created server → validate outside (some cfg) ≡ none)
    → Runs out outside cfg (on_created out cfg m)
unfolding serve stops new_http_server
on_created-Runs out outside cfg (invalid fault) valid = never not_created refl (inl refl)
on_created-Runs out outside cfg (unbuilt fault) valid = never not_created refl (inl refl)
on_created-Runs out outside cfg (created server) valid = listening out.listens
  where
    listening :
        (listens : Bool)
        → Runs out outside cfg (
            if listens
            then serve out cfg
            else record { events = idle_closed ∷ []; error = some not_listening })
    listening false = never not_listening refl (inr refl)
    listening true =
        let ok = valid server refl in
        let (least, most) = streams_bounds cfg (validate-Bounded outside cfg ok) in
        let (between, order) = closes_first out in
        let tls = not (str_eq cfg.server.tls.cert_file []) in
        has_served tls between ok least most
          (ap (λ es. serving (new_http_server cfg) (limiter_of cfg) tls ∷ (es ++ idle_closed ∷ []))
            order)
          (stops_well out)

-- Run either never serves, and then returns an error, or it serves a configuration that Validate
-- accepts, with between one HTTP/2 stream and as many as an address may have tunnels. It then closes
-- the tunnels before anything else and the idle connections last, and it returns no error exactly
-- when Serve ended because the server was closed and, where the context ended first, the shutdown
-- did not fail and the tunnels ended in time.
pub run-Runs :
    (out : Surroundings) (outside : Outside) (roots_fail : Bool) (cfg : Config)
    → Runs out outside cfg (run out outside roots_fail cfg)
unfolding run new_proxy_server
run-Runs out outside roots_fail cfg =
    on_created-Runs out outside cfg (new_proxy_server outside roots_fail cfg)
      (λ server e. created-validate outside roots_fail cfg server (validate outside (some cfg)) e)
