-- ===== src/Tunnel/Closed.antt =====
-- internal/proxy/tunnel.go: how a tunnel ends.
use go_proxy_mux.Prelude.{
  ℕ, ◌==◌, ◌≡◌, refl, sym, ap, ◌∙◌, subst, Bool, true, false, not, ◌&&◌, Bool-cases, inl, inr, List,
  [], ◌∷◌, ◌++◌, Option, arith,
}
use go_proxy_mux.Tunnel.Registry.{Registry, exists, tracking, forgetting, step, run}
use go_proxy_mux.Tunnel.Shutdown.{
  IsValid, run-IsValid, step-IsValid, joined, track_closed, track-joined, exists-forget,
}
use go_proxy_mux.Tunnel.Relay.{
  Event, said_shutting_down, closed_upstream, left_registry, close_pair, Surroundings, Tunnelled,
  leave, tracked2, relay_http2,
}

-- How a handler can end: without a client, or turned away as the registry is closing, with nothing
-- in the registry changed; or with both sides closed and only then out of the registry, which is
-- as valid as ever.
pub data Ends (r : Registry) (t : Tunnelled) : Type 0 where
  no_client : t.registry ≡ r → t.events ≡ closed_upstream ∷ [] → Ends r t
  turned_away :
      (said : List Event)
      → r.closing ≡ true
      → t.registry ≡ r
      → t.events ≡ close_pair ++ said
      → Ends r t
  served :
      (earlier : List Event)
      → r.closing ≡ false
      → exists r.made t.registry.active ≡ false
      → IsValid t.registry
      → t.events ≡ earlier ++ (close_pair ++ left_registry ∷ [])
      → Ends r t

module _ (out : Surroundings) (r : Registry) (valid : IsValid r) where
  joined-IsValid : r.closing ≡ false → IsValid (joined r)
  unfolding step
  joined-IsValid h =
      subst IsValid (ap (λ (t : Registry × Option ℕ). t.0) (track-joined r h))
        (step-IsValid tracking r valid)

  leave-Ends :
      (events : List Event) → r.closing ≡ false → Ends r (leave out (joined r) r.made events)
  unfolding leave step
  leave-Ends events h =
      let after = run out.meanwhile (joined r) in
      let still = run-IsValid out.meanwhile (joined r) (joined-IsValid h) in
      served events h
        (exists-forget r.made r.made after ∙ never (exists r.made after.active) r.made)
        (step-IsValid (forgetting r.made) after still) refl
    where
      never : (b : Bool) (p : ℕ) → (b && not (p == p)) ≡ false
      never b p = ground arith

  -- The same of relayHTTP2, which always has a client, and which answers 503 behind the closing of a
  -- pair that is not taken.
  pub relay_http2-Ends : Ends r (relay_http2 out r)
  unfolding relay_http2
  relay_http2-Ends = elim (Bool-cases r.closing) [
    | inl closing ↦
        subst (λ t. Ends r (tracked2 out t)) (sym (track_closed r closing))
          (turned_away (said_shutting_down ∷ []) closing refl refl)
    | inr taken ↦
        subst (λ t. Ends r (tracked2 out t)) (sym (track-joined r taken)) (leave-Ends _ taken)
  ]
