-- ===== src/Forward.antt =====
-- internal/proxy/http.go: forwardRequest and doHTTPRequest. What the client of an upstream gives,
-- which of the answer and the timer is first, and what the copy of the body comes to are given
-- beforehand, for each attempt and upstream. Log lines are left out.
pub mod Relayed
pub mod Verdict
pub mod Attempts
pub mod Bodies
mod Tests
use go_proxy_mux.Prelude.{
  ℕ, zero, suc, ◌+◌, Bool, true, false, not, ◌&&◌, ◌||◌, List, [], ◌∷◌, Option, none, some,
  if◌then◌else◌, ◌==◌,
}
use go_proxy_mux.Prelude.Int.{ℤ, pos, eqb_ℤ}
use go_proxy_mux.Prelude.Bytes.{Bytes, codes, str_eq}
use go_proxy_mux.Prelude.Dict.{delete}
use go_proxy_mux.Balancer.{Balancer, Selection, next, mark_failure, mark_success}
use go_proxy_mux.Headers.{Header, remove_hop_headers}

-- A request, the client's or the one sent to an upstream. `url_rest` is its URL behind the host; a
-- body that is nil or http.NoBody is `none`.
pub record Request : Type 0 where
  pub scheme : Bytes
  pub url_host : Bytes
  pub url_rest : Bytes
  pub host : Bytes
  pub request_uri : Bytes
  pub header : Header
  pub method : Bytes
  pub content_length : ℤ
  pub body : Option Bytes

-- The destination: the URL's scheme and host.
pub record Target : Type 0 where
  pub scheme : Bytes
  pub host : Bytes

pub record Response : Type 0 where
  pub status : ℕ
  pub header : Header

-- `deadline_exceeded` stands for any error of time, a net.Error with Timeout() too; `unsupported` is
-- socks.ErrUnsupportedDestination.
pub data Error : Type 0 where
  deadline_exceeded unsupported failed : Error

-- What the client's Do returns.
pub record Did : Type 0 where
  pub response : Option Response
  pub error : Option Error

-- What doHTTPRequest comes to: an answer, or an error; and the bodies that it was given and closed.
pub record Done : Type 0 where
  pub answer : Option Response
  pub error : Error
  pub opened : ℕ
  pub closed : ℕ

pub record Surroundings : Type 0 where
  pub canonical : Bytes → Bytes
  pub trim : Bytes → Bytes
  pub hostname : Bytes → Bytes
  pub did : ℕ → ℕ → Did
  pub timer_first : ℕ → ℕ → Bool
  pub client_gone : ℕ → Bool
  pub copied : ℕ → ℕ → Bool
  pub failed_at : ℕ → ℤ
  pub chosen_at : ℕ → ℤ
  pub draw : ℕ → ℕ

-- What the client is answered: an HTTP status, the upstream's answer with its body whole, or nothing
-- once it has gone. `aborted` is the panic with http.ErrAbortHandler, behind the status and header,
-- when the copy of the body fails.
pub data Reply : Type 0 where
  bad_destination timed_out upstream_failed upstream_login_failed gone : Reply
  passed aborted : ℕ → Header → Reply

-- The balancer and the answer in the end, what was sent to which upstream, in order, and the
-- response bodies that were opened and closed.
pub record Forwarded : Type 0 where
  pub balancer : Balancer
  pub reply : Reply
  pub sent : List (ℕ × Request)
  pub opened : ℕ
  pub closed : ℕ

unfoldable pub target_of : Request → Target
target_of r =
    if str_eq r.scheme [] && (str_eq r.url_host [] && not (str_eq r.host []))
    then record { scheme = codes "http"; host = r.host }
    else record { scheme = r.scheme; host = r.url_host }

unfoldable pub is_bad_target : Surroundings → Target → Bool
is_bad_target out t =
    (not (str_eq t.scheme (codes "http")) && not (str_eq t.scheme (codes "https")))
    || str_eq (out.hostname t.host) []

abbrev pub is_none : Option Bytes → Bool
is_none none = true
is_none (some body) = false

unfoldable pub can_retry : Request → Bool
can_retry r =
    (str_eq r.method (codes "GET") || str_eq r.method (codes "HEAD"))
    && (eqb_ℤ r.content_length (pos 0) && is_none r.body)

-- The clone that an attempt sends.
unfoldable pub outgoing : Surroundings → Request → Request
outgoing out r = record r {
  scheme = (target_of r).scheme;
  url_host = (target_of r).host;
  request_uri = [];
  host = (target_of r).host;
  header =
      delete (out.canonical (codes "X-Forwarded-For"))
        (remove_hop_headers out.canonical out.trim r.header);
}

abbrev pub count : Option Response → ℕ
count none = 0
count (some response) = 1

-- An error closes the body of what came with it.
abbrev pub stopped : Error → Option Response → Done
stopped error response = record {
  answer = none;
  error = error;
  opened = count response;
  closed = count response;
}

abbrev pub finished : Option Response → Option Error → Done
finished response (some error) = stopped error response
finished response none = record {
  answer = response;
  error = failed;
  opened = count response;
  closed = 0;
}

-- The compare-and-swap is won by the timer, or by the answer. Do returns a response where it
-- returns no error.
unfoldable pub do_http_request : Bool → Did → Done
do_http_request timer_first did =
    if timer_first then stopped deadline_exceeded did.response else finished did.response did.error

unfoldable pub write_upstream_error : Error → Reply
write_upstream_error deadline_exceeded = timed_out
write_upstream_error unsupported = upstream_failed
write_upstream_error failed = upstream_failed

unfoldable pub marked : Surroundings → ℕ → Balancer → ℕ → Error → Balancer
marked out n b i unsupported = b
marked out n b i failed = mark_failure b (out.failed_at n) (pos i)
marked out n b i deadline_exceeded = mark_failure b (out.failed_at n) (pos i)

abbrev pub ended : Request → Done → Balancer → Reply → ℕ → ℕ → Forwarded
ended m d b reply i closing = record {
  balancer = b;
  reply = reply;
  sent = (i, m) ∷ [];
  opened = d.opened;
  closed = d.closed + closing;
}

-- Another attempt, behind what this one sent, opened and closed.
abbrev pub after : Request → Done → ℕ → ℕ → Forwarded → Forwarded
after m d i closing rest = record rest {
  sent = (i, m) ∷ rest.sent;
  opened = d.opened + rest.opened;
  closed = d.closed + closing + rest.closed;
}

-- `if alternate, ok := ps.balancer.Next(selected.Index); ok { continue }`, else the error.
abbrev pub alternate :
    Request
    → Done
    → Reply
    → ℕ
    → ℕ
    → (Balancer → Selection → Forwarded)
    → Balancer × Option Selection
    → Forwarded
alternate m d reply i closing again (b, none) = ended m d b reply i closing
alternate m d reply i closing again (b, some other) = after m d i closing (again b other)

unfoldable pub fail_over :
    Surroundings
    → Request
    → Bool
    → ℕ
    → Done
    → Reply
    → ℕ
    → (Balancer → Selection → Forwarded)
    → ℕ
    → Balancer
    → Forwarded
fail_over out r first n d reply closing again i b =
    if can_retry r && first
    then alternate (outgoing out r) d reply i closing again
        (next b (pos i) (out.chosen_at n) out.draw)
    else ended (outgoing out r) d b reply i closing

-- The answer is passed on; a body whose copy fails ends in the panic with http.ErrAbortHandler.
unfoldable pub pass_on : Surroundings → ℕ → ℕ → Response → Reply
pass_on out n i response =
    let header = remove_hop_headers out.canonical out.trim response.header in
    if out.copied n i then passed response.status header else aborted response.status header

abbrev pub on_answer :
    Surroundings
    → Request
    → Bool
    → ℕ
    → Done
    → (Balancer → Selection → Forwarded)
    → Balancer
    → ℕ
    → Response
    → Forwarded
on_answer out r first n d again b i response =
    if response.status == 407
    then fail_over out r first n d upstream_login_failed 1 again i
        (mark_failure b (out.failed_at n) (pos i))
    else ended (outgoing out r) d (mark_success b (pos i)) (pass_on out n i response) i 1

abbrev pub on_error :
    Surroundings
    → Request
    → Bool
    → ℕ
    → Done
    → (Balancer → Selection → Forwarded)
    → Balancer
    → ℕ
    → Forwarded
on_error out r first n d again b i =
    if out.client_gone n
    then ended (outgoing out r) d b gone i 0
    else fail_over out r first n d (write_upstream_error d.error) 0 again i
        (marked out n b i d.error)

abbrev pub on_done :
    Surroundings
    → Request
    → Bool
    → ℕ
    → Done
    → (Balancer → Selection → Forwarded)
    → Balancer
    → ℕ
    → Option Response
    → Forwarded
on_done out r first n d again b i none = on_error out r first n d again b i
on_done out r first n d again b i (some response) = on_answer out r first n d again b i response

abbrev pub is_first : ℕ → Bool
is_first n = n == 0

-- The loop from attempt `n` on, of which `rounds` are left; attempt 1 never goes on.
unfoldable pub attempts : Surroundings → Request → ℕ → ℕ → Balancer → Selection → Forwarded
attempts out r zero n b s = record { balancer = b; reply = gone; sent = []; opened = 0; closed = 0 }
attempts out r (suc rounds) n b s =
    let d = do_http_request (out.timer_first n s.index) (out.did n s.index) in
    on_done out r (is_first n) n d (attempts out r rounds (suc n)) b s.index d.answer

unfoldable pub forward_request : Surroundings → Balancer → Request → Selection → Forwarded
forward_request out b r s =
    if is_bad_target out (target_of r)
    then record { balancer = b; reply = bad_destination; sent = []; opened = 0; closed = 0 }
    else attempts out r 2 0 b s
