-- ===== src/Forward/Verdict.antt =====
-- internal/proxy/http.go: what an attempt is to the client, said without the code's own words.
use go_proxy_mux.Prelude.{
  ℕ, ◌≡◌, refl, inl, inr, Bool, true, false, Bool-cases, Option, none, some, if◌then◌else◌, ◌==◌,
}
use go_proxy_mux.Prelude.Int.{pos}
use go_proxy_mux.Balancer.{Balancer, mark_failure}
use go_proxy_mux.Forward.{
  Response, Done, Surroundings, Reply, upstream_login_failed, gone, Error, deadline_exceeded,
  unsupported, failed, timed_out, upstream_failed, finished, do_http_request, write_upstream_error,
  marked,
}
use go_proxy_mux.Forward.Relayed.{handed_on}

-- What an attempt is to the client if nothing follows it, whether another upstream may follow, and
-- the balancer that it leaves for that.
pub record Verdict : Type 0 where
  pub reply : Reply
  pub may_follow : Bool
  pub blamed : Balancer

unfoldable pub answer_verdict : Surroundings → Balancer → ℕ → ℕ → Response → Verdict
answer_verdict out b n i response =
    if response.status == 407
    then record {
      reply = upstream_login_failed;
      may_follow = true;
      blamed = mark_failure b (out.failed_at n) (pos i);
    }
    else record { reply = handed_on out n i response; may_follow = false; blamed = b }

-- A destination that the SOCKS client does not support is not the upstream's fault.
pub here_verdict : Surroundings → Balancer → ℕ → ℕ → Error → Verdict
here_verdict out b n i deadline_exceeded = record {
  reply = timed_out;
  may_follow = true;
  blamed = mark_failure b (out.failed_at n) (pos i);
}
here_verdict out b n i unsupported = record {
  reply = upstream_failed;
  may_follow = true;
  blamed = b;
}
here_verdict out b n i failed = record {
  reply = upstream_failed;
  may_follow = true;
  blamed = mark_failure b (out.failed_at n) (pos i);
}

unfoldable pub error_verdict : Surroundings → Balancer → ℕ → ℕ → Error → Verdict
error_verdict out b n i error =
    if out.client_gone n
    then record { reply = gone; may_follow = false; blamed = b }
    else here_verdict out b n i error

pub did_verdict : Surroundings → Balancer → ℕ → ℕ → Option Error → Option Response → Verdict
did_verdict out b n i (some error) response = error_verdict out b n i error
did_verdict out b n i none (some response) = answer_verdict out b n i response
did_verdict out b n i none none = error_verdict out b n i failed

-- The verdict on attempt `n`, of upstream `i`: that on the timer, if it was first, else that on what
-- the client gave.
pub verdict : Surroundings → Balancer → ℕ → ℕ → Verdict
verdict out b n i =
    if out.timer_first n i
    then error_verdict out b n i deadline_exceeded
    else did_verdict out b n i (out.did n i).error (out.did n i).response

-- The verdict from what doHTTPRequest comes to.
unfoldable pub verdict_of : Surroundings → Balancer → ℕ → ℕ → Done → Option Response → Verdict
verdict_of out b n i d none = error_verdict out b n i d.error
verdict_of out b n i d (some response) = answer_verdict out b n i response

pub verdict-verdict_of :
    (out : Surroundings) (b : Balancer) (n i : ℕ)
    → let d = do_http_request (out.timer_first n i) (out.did n i) in
      verdict out b n i ≡ verdict_of out b n i d d.answer
unfolding verdict do_http_request verdict_of did_verdict
verdict-verdict_of out b n i = elim (Bool-cases (out.timer_first n i)) [
  | inl late ↦ rw late refl
  | inr in_time ↦ rw in_time (of_did (out.did n i).error (out.did n i).response)
]
  where
    of_did :
        (error : Option Error) (response : Option Response)
        → let d = finished response error in
          did_verdict out b n i error response ≡ verdict_of out b n i d d.answer
    of_did (some error) response = refl
    of_did none (some response) = refl
    of_did none none = refl

pub here_verdict-parts :
    (out : Surroundings) (b : Balancer) (n i : ℕ) (error : Error)
    → here_verdict out b n i error ≡ record {
      reply = write_upstream_error error;
      may_follow = true;
      blamed = marked out n b i error;
    }
unfolding here_verdict write_upstream_error marked
here_verdict-parts out b n i deadline_exceeded = refl
here_verdict-parts out b n i unsupported = refl
here_verdict-parts out b n i failed = refl
