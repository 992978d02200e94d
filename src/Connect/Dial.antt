-- ===== src/Connect/Dial.antt =====
-- internal/proxy/connect.go: dialConnect through an HTTP or HTTPS upstream; a SOCKS upstream is
-- Socks.Dial. Go's base64 is the argument `encode`. What the dialer, the deadlines, TLS, the writes
-- and the context do is given beforehand.
pub mod Text
pub mod Owner
pub mod Handled
mod Tests
use go_proxy_mux.Prelude.{
  ℕ, Bool, true, false, not, ◌&&◌, List, [], ◌∷◌, ◌++◌, Option, none, some, if◌then◌else◌, ◌==◌,
}
use go_proxy_mux.Prelude.Bytes.{Bytes, codes, str_eq}
use go_proxy_mux.Prelude.Checks.{first_fault}
use go_proxy_mux.Config.{UpstreamAuth}
use go_proxy_mux.Connect.Status.{Part, read_connect_status}

abbrev pub line_end : Bytes
line_end = 13 ∷ 10 ∷ []

-- The request, with the upstream's credentials where it has any.
unfoldable pub login_field : (Bytes → Bytes) → UpstreamAuth → Bytes
login_field encode auth =
    if auth.enabled
    then codes "Proxy-Authorization: Basic "
      ++ (encode (auth.username ++ b':' ∷ auth.password) ++ line_end)
    else []

unfoldable pub connect_request : (Bytes → Bytes) → UpstreamAuth → Bytes → Bytes
connect_request encode auth target =
    codes "CONNECT "
    ++ (target
        ++ (codes " HTTP/1.1"
            ++ (line_end
                ++ (codes "Host: "
                    ++ (target ++ (line_end ++ (login_field encode auth ++ line_end)))))))

pub data SetupError : Type 0 where
  context_done broken : SetupError
  refused : ℕ → SetupError

pub record Surroundings : Type 0 where
  pub dialed : Bool
  pub deadline_fails : Bool
  pub tls_fails : Bool
  pub write_fails : Bool
  pub read_deadline_fails : Bool
  pub answers : List Part
  pub clear_fails : Bool
  pub context_is_done : Bool
  pub fields : Bytes → List Bytes

-- `setupError`
unfoldable pub setup_error : Bool → SetupError → SetupError
setup_error context_is_done e = if context_is_done then context_done else e

-- What becomes of the connection: the deferred function closes it unless `success` was set.
pub data Connection : Type 0 where
  none_made still_open shut : Connection

-- The connection, what has been sent whole on it, and the answer's rest or the error.
pub record Dialed : Type 0 where
  pub connection : Connection
  pub sent : Bytes
  pub result : Option (List Part)
  pub error : SetupError

abbrev pub failing : Connection → Bytes → SetupError → Dialed
failing connection sent e = record {
  connection = connection;
  sent = sent;
  result = none;
  error = e;
}

-- Behind readConnectStatus.
abbrev pub on_status : Surroundings → Bytes → Option (ℕ × List Part) → Dialed
on_status out sent none = failing shut sent (setup_error out.context_is_done broken)
on_status out sent (some (status, rest)) =
    if not (status == 200)
    then failing shut sent (refused status)
    else if out.clear_fails
    then failing shut sent broken
    else record { connection = still_open; sent = sent; result = some rest; error = broken }

-- Behind the write of the request.
abbrev pub on_sent : Surroundings → Bytes → Dialed
on_sent out request =
    if out.read_deadline_fails
    then failing shut request broken
    else on_status out request (read_connect_status out.fields out.answers)

-- What can fail before the request is written, in order.
abbrev pub setup_checks : Surroundings → Bytes → List (Bool × SetupError)
setup_checks out scheme =
    (out.deadline_fails, broken)
    ∷ (str_eq scheme (codes "https") && out.tls_fails, setup_error out.context_is_done broken)
    ∷ (out.write_fails, setup_error out.context_is_done broken)
    ∷ []

abbrev pub unless_failed : Surroundings → Bytes → Option SetupError → Dialed
unless_failed out request (some e) = failing shut [] e
unless_failed out request none = on_sent out request

unfoldable pub dial_connect : Surroundings → (Bytes → Bytes) → Bytes → UpstreamAuth → Bytes → Dialed
dial_connect out encode scheme auth target =
    if not out.dialed
    then failing none_made [] (setup_error out.context_is_done broken)
    else unless_failed out (connect_request encode auth target)
        (first_fault (setup_checks out scheme))
