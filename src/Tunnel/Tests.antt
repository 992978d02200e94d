-- ===== src/Tunnel/Tests.antt =====
-- internal/proxy/tunnel.go: runs of the registry and of a tunnel, and the theorems at them.
use go_proxy_mux.Prelude.{ℕ, ◌≡◌, refl, true, false, [], ◌∷◌, List, some, arith}
use go_proxy_mux.Tunnel.Registry.{
  new_tunnel_registry, track, exists, without, forget, close_all, all_ended, wait_for, Operation,
  tracking, closing_all, forgetting, step, run,
}
use go_proxy_mux.Tunnel.Shutdown.{forgotten, wait_for-close_all}
use go_proxy_mux.Tunnel.Relay.{
  said_established, closed_client, closed_upstream, left_registry, Surroundings, leave, relay_http1,
  relay,
}
use go_proxy_mux.Tunnel.Idle.{IdleCloser, new_idle_closer, touch, read, ring, begins, passes, rings}
use go_proxy_mux.Tunnel.Idle.Silence.{Silence, idles-Silence}

abbrev two : List Operation
two = tracking ∷ tracking ∷ []

-- Pair 1 leaves twice, and a third tunnel comes too late.
abbrev leaving : List Operation
leaving = forgetting 1 ∷ tracking ∷ forgetting 1 ∷ forgetting 0 ∷ []

late_tunnel : (run leaving (close_all (run two new_tunnel_registry)).0).made ≡ 2
unfolding run step track forget close_all exists without
late_tunnel = refl

all_leave :
    (p : ℕ)
    → exists p (close_all (run two new_tunnel_registry)).1 ≡ true
    → forgotten p leaving ≡ true
unfolding exists forgotten run step track close_all
all_leave p h = ground arith

-- The upstream ends the connection first, and the copy to it fails; a shutdown begins meanwhile.
abbrev out : Surroundings
out = record {
  hijack_fails = false;
  write_fails = false;
  flush_fails = false;
  meanwhile = tracking ∷ closing_all ∷ [];
  upstream_first = true;
  to_upstream = record { copied = false; half_closes = true };
  to_client = record { copied = false; half_closes = true };
}

relay_http1_run :
    (relay_http1 out new_tunnel_registry).events
    ≡ said_established ∷ closed_client ∷ closed_upstream ∷ closed_client ∷ closed_upstream
      ∷ left_registry ∷ []
unfolding relay_http1 relay leave track
relay_http1_run = refl

due_130 : (read 4 30 100 (new_idle_closer 0 100)).due ≡ some 130
unfolding read touch
due_130 = refl

wait_for-close_all_example :
    wait_for (run leaving (close_all (run two new_tunnel_registry)).0) false false ≡ some all_ended
wait_for-close_all_example = wait_for-close_all two leaving all_leave

abbrev at_30 : IdleCloser
at_30 = read 4 30 100 (new_idle_closer 0 100)

idles-Silence_example : Silence 100 30 (ring at_30) true
idles-Silence_example = idles-Silence 100 130 30 (ring at_30) true (
    rings 30 130 30 130 at_30 false
      (passes 4 0 30 0 (new_idle_closer 0 100) false (begins 0) (omega arith)) (omega arith) due_130
      (omega arith))
