-- ===== src/Tunnel/Relay.antt =====
-- internal/proxy/tunnel.go: relay, relayHTTP1 and relayHTTP2, as what they do in order. The idle
-- timer, closeAll and the client's context may close the pair at any time besides, which the copies
-- then show.
use go_proxy_mux.Prelude.{
  ℕ, Bool, true, false, not, ◌&&◌, ◌||◌, List, [], ◌∷◌, ◌++◌, Option, none, some, if◌then◌else◌,
}
use go_proxy_mux.Tunnel.Registry.{Registry, track, forget, Operation, run}

-- The client's side of a pair is its connection, or the request's body.
pub data Event : Type 0 where
  said_established said_shutting_down : Event
  half_closed_upstream half_closed_client closed_client closed_upstream : Event
  left_registry : Event

abbrev pub close_pair : List Event
close_pair = closed_client ∷ closed_upstream ∷ []

-- What io.Copy of a direction, and the half-close behind it, come to.
pub record Copy : Type 0 where
  pub copied : Bool
  pub half_closes : Bool

-- `upstream_first` tells which direction ends first.
pub record Surroundings : Type 0 where
  pub hijack_fails : Bool
  pub write_fails : Bool
  pub flush_fails : Bool
  pub meanwhile : List Operation
  pub upstream_first : Bool
  pub to_upstream : Copy
  pub to_client : Copy

abbrev pub half_close : Bool → Event → Copy → List Event
half_close can event c = if can && c.copied then event ∷ [] else []

-- A direction's error.
abbrev pub has_failed : Bool → Copy → Bool
has_failed can c = not c.copied || (can && not c.half_closes)

abbrev pub unless_nil : Bool → List Event
unless_nil failed = if failed then close_pair else []

-- The two directions; the pair is closed between them when the first one fails. The half-close of
-- the client is left out where `halfCloseClient` is nil.
unfoldable pub relay : Surroundings → Bool → List Event
relay out can =
    let up = half_close true half_closed_upstream out.to_upstream in
    let down = half_close can half_closed_client out.to_client in
    if out.upstream_first
    then up ++ (unless_nil (has_failed true out.to_upstream) ++ down)
    else down ++ (unless_nil (has_failed can out.to_client) ++ up)

-- The registry and what was done, in order.
pub record Tunnelled : Type 0 where
  pub registry : Registry
  pub events : List Event

-- `defer closePair()`, then `defer release()`, which runs last.
unfoldable pub leave : Surroundings → Registry → ℕ → List Event → Tunnelled
leave out r p events = record {
  registry = forget p (run out.meanwhile r);
  events = events ++ (close_pair ++ left_registry ∷ []);
}

abbrev pub tracked1 : Surroundings → Registry × Option ℕ → Tunnelled
tracked1 out (r, none) = record { registry = r; events = close_pair }
tracked1 out (r, some p) =
    leave out r p
      (if out.write_fails || out.flush_fails then [] else said_established ∷ relay out true)

unfoldable pub relay_http1 : Surroundings → Registry → Tunnelled
relay_http1 out r =
    if out.hijack_fails
    then record { registry = r; events = closed_upstream ∷ [] }
    else tracked1 out (track r)

-- The status 200 is written first, which gives no error.
abbrev pub tracked2 : Surroundings → Registry × Option ℕ → Tunnelled
tracked2 out (r, none) = record { registry = r; events = close_pair ++ said_shutting_down ∷ [] }
tracked2 out (r, some p) =
    leave out r p (said_established ∷ (if out.flush_fails then [] else relay out false))

unfoldable pub relay_http2 : Surroundings → Registry → Tunnelled
relay_http2 out r = tracked2 out (track r)
