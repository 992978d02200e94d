-- ===== src/Tunnel/Idle.antt =====
-- internal/proxy/tunnel.go: idleCloser, activityReader and flushingWriter. The timer fires no earlier
-- than it is due.
pub mod Silence
use go_proxy_mux.Prelude.{
  ℕ, ◌+◌, ◌≤◌, ◌≡◌, ◌==◌, Bool, true, false, ◌||◌, Option, none, some, if◌then◌else◌,
}

-- When the timer is due, if it runs.
pub record IdleCloser : Type 0 where
  pub stopped : Bool
  pub due : Option ℕ

abbrev pub new_idle_closer : ℕ → ℕ → IdleCloser
new_idle_closer now duration = record { stopped = false; due = some (now + duration) }

unfoldable pub touch : ℕ → ℕ → IdleCloser → IdleCloser
touch now duration c = if c.stopped then c else record c { due = some (now + duration) }

abbrev pub stop : IdleCloser → IdleCloser
stop c = record { stopped = true; due = none }

-- The timer runs once, and closes the pair.
abbrev pub ring : IdleCloser → IdleCloser
ring c = record c { due = none }

-- A Read of an activityReader that gave `n` bytes.
unfoldable pub read : ℕ → ℕ → ℕ → IdleCloser → IdleCloser
read n now duration c = if n == 0 then c else touch now duration c

-- Whether flushingWriter's Write gives an error, where the writer below took `n` bytes.
unfoldable pub write : ℕ → Bool → Bool → Bool
write n fails flush_fails = if fails || n == 0 then fails else flush_fails

-- What has happened until `now`: the last byte was read at `last`, or the relay began then, and
-- whether the timer has closed the pair.
pub data Idles (duration : ℕ) : ℕ → ℕ → IdleCloser → Bool → Type 0 where
  begins : (now : ℕ) → Idles duration now now (new_idle_closer now duration) false
  passes :
      (n now t last : ℕ) (c : IdleCloser) (closed : Bool)
      → Idles duration now last c closed
      → now ≤ t
      → Idles duration t (if n == 0 then last else t) (read n t duration c) closed
  stops :
      (now t last : ℕ) (c : IdleCloser) (closed : Bool)
      → Idles duration now last c closed
      → now ≤ t
      → Idles duration t last (stop c) closed
  rings :
      (now t last due : ℕ) (c : IdleCloser) (closed : Bool)
      → Idles duration now last c closed
      → now ≤ t
      → c.due ≡ some due
      → due ≤ t
      → Idles duration t last (ring c) true
