-- ===== src/Body.antt =====
-- internal/proxy/http_body.go: copyHTTPResponse. The clock counts nanoseconds from `started`; the body's
-- reads and the timer's firings come in any order. io.Copy's error is given.
pub mod Idle
mod Tests
use go_proxy_mux.Prelude.{
  ℕ, ◌+◌, ◌-◌, ◌≤◌, ◌≡◌, ◌==◌, Bool, true, false, not, ◌&&◌, ◌||◌, Option, none, some, leb,
  if◌then◌else◌,
}

-- `lastRead`, when the timer is due, and whether the request was cancelled as idle.
pub record Watch : Type 0 where
  pub last_read : ℕ
  pub due : ℕ
  pub cancelled : Bool

abbrev pub started : ℕ → Watch
started idle_timeout = record { last_read = 0; due = idle_timeout; cancelled = false }

-- A Read that gave `n` bytes, at the time `now`.
unfoldable pub read : ℕ → ℕ → Watch → Watch
read n now w = if n == 0 then w else record w { last_read = now }

-- The timer's channel is ready: the request is cancelled, or the timer set anew.
unfoldable pub fire : ℕ → ℕ → Watch → Watch
fire idle_timeout now w =
    let idle_for = now - w.last_read in
    if leb idle_timeout idle_for
    then record w { cancelled = true }
    else record w { due = now + (idle_timeout - idle_for) }

-- What has happened to a body until `now`. The goroutine ends when it has cancelled the request.
pub data Watched (idle_timeout : ℕ) : ℕ → Watch → Type 0 where
  begins : Watched idle_timeout 0 (started idle_timeout)
  reads :
      (n now t : ℕ) (w : Watch)
      → Watched idle_timeout now w
      → now ≤ t
      → Watched idle_timeout t (read n t w)
  fires :
      (now t : ℕ) (w : Watch)
      → Watched idle_timeout now w
      → now ≤ t
      → w.due ≤ t
      → w.cancelled ≡ false
      → Watched idle_timeout t (fire idle_timeout t w)

-- A Flush that is not supported is no error.
pub data Flushed : Type 0 where
  flushed not_supported flush_failed : Flushed

abbrev pub after_flush : Flushed → Bool
after_flush flushed = false
after_flush not_supported = false
after_flush flush_failed = true

-- Whether the flushing writer's Write gives an error, where the writer below took `n` bytes.
unfoldable pub write : ℕ → Bool → Flushed → Bool
write n fails f = if fails || n == 0 then fails else after_flush f

pub data BodyError : Type 0 where
  body_idle copy_failed : BodyError

-- What copyHTTPResponse returns; the cause of the request's end is the first of its cancellations.
unfoldable pub copy_http_response : Bool → Bool → Option BodyError
copy_http_response copy_fails cause_is_idle =
    if copy_fails && cause_is_idle
    then some body_idle
    else if copy_fails
    then some copy_failed
    else none
