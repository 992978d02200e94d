-- ===== src/Connect/Dial/Owner.antt =====
-- internal/proxy/connect.go, dialConnect: who owns the connection when it returns.
use go_proxy_mux.Prelude.{
  ℕ, ◌≡◌, ◌≢◌, refl, Bool-cases, inl, inr, List, Option, none, some, arith, ◌==◌,
}
use go_proxy_mux.Prelude.Bytes.{Bytes}
use go_proxy_mux.Prelude.Checks.{first_fault}
use go_proxy_mux.Config.{UpstreamAuth}
use go_proxy_mux.Connect.Status.{Part, read_connect_status}
use go_proxy_mux.Connect.Dial.{
  SetupError, Surroundings, none_made, still_open, shut, Dialed, on_status, on_sent, setup_checks,
  unless_failed, connect_request, dial_connect,
}

-- A tunnel over a connection that is still open, after the whole request was sent and a status 200
-- read, with what stands behind that answer; or an error, and no connection that is still open.
abbrev pub Owned : Surroundings → Bytes → Dialed → Option (List Part) → Type 0
Owned out request d none = d.connection ≢ still_open
Owned out request d (some rest) =
    (d.connection ≡ still_open)
    × (d.sent ≡ request)
    × (read_connect_status out.fields out.answers ≡ some (200, rest))

not_open : shut ≢ still_open
not_open e = absurd (ground arith)

none_open : none_made ≢ still_open
none_open e = absurd (ground arith)

Settled : Surroundings → Bytes → Dialed → Type 0
Settled out request d = Owned out request d d.result

on_status-Settled :
    (out : Surroundings) (request : Bytes) (m : Option (ℕ × List Part))
    → read_connect_status out.fields out.answers ≡ m
    → Settled out request (on_status out request m)
unfolding Settled
on_status-Settled out request none e = not_open
on_status-Settled out request (some (status, rest)) e = elim (Bool-cases (status == 200)) [
  | inl ok ↦ elim (Bool-cases out.clear_fails) [
    | inl fails ↦ rw (ok, fails) not_open
    | inr clear ↦
        let same : status ≡ 200 = ground arith in rw (ok, clear) (refl, refl, rw same at e)
  ]
  | inr other ↦ rw other not_open
]

on_sent-Settled : (out : Surroundings) (request : Bytes) → Settled out request (on_sent out request)
unfolding Settled
on_sent-Settled out request = elim (Bool-cases out.read_deadline_fails) [
  | inl fails ↦ rw fails not_open
  | inr set ↦
      rw set (on_status-Settled out request (read_connect_status out.fields out.answers) refl)
]

unless_failed-Settled :
    (out : Surroundings) (request : Bytes) (m : Option SetupError)
    → Settled out request (unless_failed out request m)
unfolding Settled
unless_failed-Settled out request (some e) = not_open
unless_failed-Settled out request none = on_sent-Settled out request

-- dialConnect through an HTTP or HTTPS upstream gives back a tunnel only over a connection that it
-- leaves open, after it has sent the whole request and read a status 200, with exactly the bytes
-- behind that answer's header; with an error it leaves no connection open.
pub dial_connect-Owned :
    (out : Surroundings) (encode : Bytes → Bytes) (scheme : Bytes) (auth : UpstreamAuth)
    (target : Bytes)
    → let d = dial_connect out encode scheme auth target in
      Owned out (connect_request encode auth target) d d.result
unfolding dial_connect Settled
dial_connect-Owned out encode scheme auth target = elim (Bool-cases out.dialed) [
  | inl dialed ↦ rw dialed (
      unless_failed-Settled out (connect_request encode auth target)
        (first_fault (setup_checks out scheme)))
  | inr not_dialed ↦ rw not_dialed none_open
]
