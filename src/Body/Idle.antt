-- ===== src/Body/Idle.antt =====
-- internal/proxy/http_body.go: when a body is given up as idle.
use go_proxy_mux.Prelude.{ℕ, ◌+◌, ◌≤◌, ◌<◌, ◌≡◌, true, false}
use go_proxy_mux.Body.{Watch}

-- The last read is in the past, and the timer is due no later than a timeout after it.
record Timely (idle_timeout now : ℕ) (w : Watch) : Type 0 where
  past : w.last_read ≤ now
  due_in_time : w.due ≤ w.last_read + idle_timeout

-- Setting the timer anew.
pub record Judged (idle_timeout t : ℕ) (w w' : Watch) : Type 0 where
  pub gives_up : w.last_read + idle_timeout ≤ t → w'.cancelled ≡ true
  pub goes_on :
      t < w.last_read + idle_timeout
      → (w'.cancelled ≡ false) × (w'.due ≡ w.last_read + idle_timeout)
  pub keeps : w'.last_read ≡ w.last_read
