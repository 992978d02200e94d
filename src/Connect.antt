-- ===== src/Connect.antt =====
-- internal/proxy/connect.go: handleConnect, with the tunnel limiter and the balancer that it
-- works on. What dialConnect comes to is given beforehand, for each attempt and upstream; the
-- relay of an established tunnel is in Tunnel, and the log lines are left out.
pub mod Failover
pub mod Release
pub mod Status
pub mod Dial
mod Tests
use go_proxy_mux.Prelude.{
  ℕ, zero, suc, Bool, true, false, not, ◌&&◌, ◌||◌, List, [], ◌∷◌, Option, none, some,
  if◌then◌else◌, ◌==◌,
}
use go_proxy_mux.Prelude.Int.{ℤ, pos, eqb_ℤ}
use go_proxy_mux.Prelude.Bytes.{Bytes, str_eq}
use go_proxy_mux.Prelude.Checks.{first_fault, or_else}
use go_proxy_mux.Net.{contains, split_host_port, atoi, out_of_range}
use go_proxy_mux.Balancer.{Balancer, Selection, next, mark_failure, mark_success}
use go_proxy_mux.Limits.{Limiter, Lease, try_acquire, release}
use go_proxy_mux.Limits.Accept.{address_host}

pub record Request : Type 0 where
  pub host : Bytes
  pub url_host : Bytes
  pub proto_major : ℤ
  pub remote_addr : Bytes

-- What the client is answered: an HTTP status, the tunnel, or nothing once it has gone.
pub data Reply : Type 0 where
  bad_destination bad_port bad_version no_hijacking too_many_tunnels upstream_error : Reply
  relayed gone : Reply

-- What dialConnect comes to: a tunnel, the end of the client's context, or an error, which may be
-- that the upstream cannot represent the target.
pub data Setup : Type 0 where
  established cancelled unsupported failed : Setup

-- Attempt 0 is the first. `setup n i` is dialConnect of upstream `i`, `failed_at` and `chosen_at`
-- are the clock in MarkFailure and in Next.
pub record Surroundings : Type 0 where
  pub can_hijack : Bool
  pub setup : ℕ → ℕ → Setup
  pub failed_at : ℕ → ℤ
  pub chosen_at : ℕ → ℤ
  pub draw : ℕ → ℕ

-- The balancer and the answer in the end, and the upstreams that were dialled, in order.
pub record Tried : Type 0 where
  pub balancer : Balancer
  pub reply : Reply
  pub dialed : List ℕ

unfoldable pub target_of : Request → Bytes
target_of r = if str_eq r.host [] then r.url_host else r.host

abbrev pub check_parts : Option (Bytes × Bytes) → Option Reply
check_parts none = some bad_destination
check_parts (some (hostname, port)) = first_fault (
    (str_eq hostname [] || (contains 13 hostname || contains 10 hostname), bad_destination)
    ∷ (out_of_range (atoi port), bad_port)
    ∷ [])

unfoldable pub check_request : Surroundings → Request → Option Reply
check_request out r = or_else (check_parts (split_host_port (target_of r))) (
    first_fault (
      (not (eqb_ℤ r.proto_major (pos 1)) && not (eqb_ℤ r.proto_major (pos 2)), bad_version)
      ∷ (eqb_ℤ r.proto_major (pos 1) && not out.can_hijack, no_hijacking)
      ∷ []))

abbrev pub ended : Balancer → Reply → ℕ → Tried
ended b reply i = record { balancer = b; reply = reply; dialed = i ∷ [] }

-- `if alternate, ok := ps.balancer.Next(selected.Index); ok { continue }`
abbrev pub alternate : ℕ → (Balancer → Selection → Tried) → Balancer × Option Selection → Tried
alternate i again (b, none) = ended b upstream_error i
alternate i again (b, some other) =
    let rest = again b other in record rest { dialed = i ∷ rest.dialed }

-- After a failed attempt `n` of upstream `i`: one more, or the error.
unfoldable pub fail_over : Surroundings → ℕ → (Balancer → Selection → Tried) → ℕ → Balancer → Tried
fail_over out zero again i b = alternate i again (next b (pos i) (out.chosen_at zero) out.draw)
fail_over out (suc n) again i b = ended b upstream_error i

unfoldable pub react :
    Surroundings → ℕ → (Balancer → Selection → Tried) → Balancer → ℕ → Setup → Tried
react out n again b i established = ended (mark_success b (pos i)) relayed i
react out n again b i cancelled = ended b gone i
react out n again b i unsupported = fail_over out n again i b
react out n again b i failed = fail_over out n again i (mark_failure b (out.failed_at n) (pos i))

-- The loop from attempt `n` on, of which `rounds` are left. Attempt 1 never goes on, so that the
-- case of no rounds is not reached from two.
unfoldable pub attempts : Surroundings → ℕ → ℕ → Balancer → Selection → Tried
attempts out zero n b s = record { balancer = b; reply = gone; dialed = [] }
attempts out (suc rounds) n b s =
    react out n (attempts out rounds (suc n)) b s.index (out.setup n s.index)

-- The limiter when the handler returns, the balancer, the answer, and the upstreams dialled.
pub record Handled : Type 0 where
  pub limiter : Limiter
  pub tried : Tried

abbrev pub answered : Limiter → Balancer → Reply → Handled
answered l b reply = record {
  limiter = l;
  tried = record { balancer = b; reply = reply; dialed = [] };
}

-- With a tunnel's lease, or without; `defer releaseTunnel()`.
abbrev pub with_lease : Surroundings → Balancer → Selection → Limiter × Option Lease → Handled
with_lease out b s (l, none) = answered l b too_many_tunnels
with_lease out b s (l, some lease) = record {
  limiter = (release l lease).0;
  tried = attempts out 2 0 b s;
}

abbrev pub unless_refused : Limiter → Balancer → Option Reply → Handled → Handled
unless_refused l b none h = h
unless_refused l b (some reply) h = answered l b reply

unfoldable pub handle_connect : Surroundings → Limiter → Balancer → Request → Selection → Handled
handle_connect out l b r s =
    unless_refused l b (check_request out r)
      (with_lease out b s (try_acquire l (address_host r.remote_addr)))
