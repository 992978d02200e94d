-- ===== src/Tunnel/Registry.antt =====
-- internal/proxy/tunnel.go: tunnelRegistry, with any sequence of its operations.
use go_proxy_mux.Prelude.{
  ℕ, suc, ◌-◌, ◌==◌, Bool, true, false, not, ◌&&◌, ◌||◌, List, [], ◌∷◌, Option, none, some,
  if◌then◌else◌,
}

pub record Registry : Type 0 where
  pub closing : Bool
  pub active : List ℕ
  pub wait : ℕ
  pub made : ℕ

abbrev pub new_tunnel_registry : Registry
new_tunnel_registry = record { closing = false; active = []; wait = 0; made = 0 }

-- The pair, or none where no more are taken.
unfoldable pub track : Registry → Registry × Option ℕ
track r = if r.closing then (r, none) else (
  record r { active = r.made ∷ r.active; wait = suc r.wait; made = suc r.made },
  some r.made,
)

-- `_, exists := r.active[pair]`
unfoldable pub exists : ℕ → List ℕ → Bool
exists p [] = false
exists p (q ∷ qs) = q == p || exists p qs

unfoldable pub without : ℕ → List ℕ → List ℕ
without p [] = []
without p (q ∷ qs) = let rest = without p qs in if q == p then rest else q ∷ rest

-- The function that `track` returns for a pair.
unfoldable pub forget : ℕ → Registry → Registry
forget p r =
    if exists p r.active then record r { active = without p r.active; wait = r.wait - 1 } else r

-- The pairs that are closed then.
unfoldable pub close_all : Registry → Registry × List ℕ
close_all r = (record r { closing = true }, r.active)

-- What waitFor's select comes to, at a moment at which it has something: the counter is 0, or the
-- context is done; where both hold, `first` says which one it takes.
pub data Waited : Type 0 where
  all_ended context_ended : Waited

unfoldable pub wait_for : Registry → Bool → Bool → Option Waited
wait_for r context_is_done first =
    if (r.wait == 0) && (not context_is_done || first)
    then some all_ended
    else if context_is_done
    then some context_ended
    else none

pub data Operation : Type 0 where
  tracking closing_all : Operation
  forgetting : ℕ → Operation

unfoldable pub step : Operation → Registry → Registry
step tracking r = (track r).0
step closing_all r = (close_all r).0
step (forgetting p) r = forget p r

unfoldable pub run : List Operation → Registry → Registry
run [] r = r
run (op ∷ ops) r = run ops (step op r)
