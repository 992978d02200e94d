-- ===== src/Connect/Dial/Handled.antt =====
-- internal/proxy/connect.go: handleConnect over dialConnect through HTTP and HTTPS upstreams, and the
-- connections that they leave.
use go_proxy_mux.Prelude.{
  ℕ, ◌<◌, ◌≡◌, ◌≢◌, sym, subst, Bool, true, false, List, [], ◌∷◌, Option, none, some, if◌then◌else◌,
}
use go_proxy_mux.Prelude.Bytes.{Bytes}
use go_proxy_mux.Config.{UpstreamAuth}
use go_proxy_mux.Balancer.{Balancer, Selection}
use go_proxy_mux.Connect
use go_proxy_mux.Connect.{
  Setup, established, cancelled, failed, unsupported, Reply, relayed, upstream_error, Tried,
  attempts,
}
use go_proxy_mux.Connect.Failover.{
  reply_of, Failing, FailsOver, first_decides, no_other, second_decides, attempts-FailsOver,
}
use go_proxy_mux.Connect.Status.{Part}
use go_proxy_mux.Connect.Dial.{Surroundings, still_open, Dialed, connect_request, dial_connect}
use go_proxy_mux.Connect.Dial.Owner.{Owned, dial_connect-Owned}

-- A connection without an error is a tunnel; an error counts only while the client is there.
abbrev pub setup_of : Bool → Option (List Part) → Setup
setup_of client_gone none = if client_gone then cancelled else failed
setup_of client_gone (some rest) = established

-- A tunnel is relayed over an open connection; any other answer leaves the connection closed.
abbrev pub Keeps : Reply → Dialed → Type 0
Keeps relayed d = d.connection ≡ still_open
Keeps _ d = d.connection ≢ still_open

reply_of-Keeps :
    (out : Surroundings) (request : Bytes) (client_gone : Bool) (d : Dialed)
    (m : Option (List Part))
    → Owned out request d m
    → Keeps (reply_of (setup_of client_gone m)) d
reply_of-Keeps out request true d none o = o
reply_of-Keeps out request false d none o = o
reply_of-Keeps out request client_gone d (some rest) o = o.0

no_tunnel :
    (out : Surroundings) (request : Bytes) (client_gone : Bool) (d : Dialed)
    (m : Option (List Part))
    → Owned out request d m
    → Failing (setup_of client_gone m)
    → d.connection ≢ still_open
no_tunnel out request client_gone d none o f = o
no_tunnel out request client_gone d (some rest) o f = elim f [ ]

-- `outs n i` is what dialConnect of upstream `i` meets in attempt `n`; an upstream's scheme and
-- credentials are its own.
module _ (out : Connect.Surroundings) (client_gone : ℕ → Bool) (outs : ℕ → ℕ → Surroundings)
    (encode : Bytes → Bytes) (scheme : ℕ → Bytes) (auth : ℕ → UpstreamAuth) (target : Bytes) where
  abbrev pub dial : ℕ → ℕ → Dialed
  dial n i = dial_connect (outs n i) encode (scheme i) (auth i) target

  abbrev pub composed : Connect.Surroundings
  composed = record out { setup = λ n i. setup_of (client_gone n) (dial n i).result }

  -- The connections that the attempts leave.
  pub data Leaves (t : Tried) : Type 0 where
    one : (i : ℕ) → t.dialed ≡ i ∷ [] → Keeps t.reply (dial 0 i) → Leaves t
    two :
        (i j : ℕ)
        → t.dialed ≡ i ∷ j ∷ []
        → (dial 0 i).connection ≢ still_open
        → Keeps t.reply (dial 1 j)
        → Leaves t

  keeps : (n i : ℕ) → Keeps (reply_of (composed.setup n i)) (dial n i)
  keeps n i =
      reply_of-Keeps (outs n i) (connect_request encode (auth i) target) (client_gone n) (dial n i)
        (dial n i).result (dial_connect-Owned (outs n i) encode (scheme i) (auth i) target)

  closed : (n i : ℕ) → Failing (composed.setup n i) → (dial n i).connection ≢ still_open
  closed n i =
      no_tunnel (outs n i) (connect_request encode (auth i) target) (client_gone n) (dial n i)
        (dial n i).result (dial_connect-Owned (outs n i) encode (scheme i) (auth i) target)

  leaves : (b : Balancer) (s : Selection) (t : Tried) → FailsOver composed b s t → Leaves t
  leaves b s t (first_decides dialed reply why) =
      one s.index dialed (subst (λ r. Keeps r (dial 0 s.index)) (sym reply) (keeps 0 s.index))
  leaves b s t (no_other fails dialed reply chosen) =
      one s.index dialed
        (subst (λ r. Keeps r (dial 0 s.index)) (sym reply) (closed 0 s.index fails))
  leaves b s t (second_decides b' other fails dialed reply chosen) =
      two s.index other.index dialed (closed 0 s.index fails)
        (subst (λ r. Keeps r (dial 1 other.index)) (sym reply) (keeps 1 other.index))

  -- Over HTTP and HTTPS upstreams, the attempts of handleConnect leave a connection open only to
  -- the upstream whose tunnel they relay, which is the last that they dial; a first connection
  -- that fails over to another is closed, and with any other answer so is the last one. It relies
  -- on draws of the random source below their bound.
  pub attempts-Leaves :
      (b : Balancer) (s : Selection)
      → ((n : ℕ) → 0 < n → out.draw n < n)
      → Leaves (attempts composed 2 0 b s)
  attempts-Leaves b s draws =
      leaves b s (attempts composed 2 0 b s) (attempts-FailsOver composed b s draws)
