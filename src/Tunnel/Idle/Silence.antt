-- ===== src/Tunnel/Idle/Silence.antt =====
-- internal/proxy/tunnel.go, idleCloser: the pair is closed when nothing is read for long enough.
use go_proxy_mux.Prelude.{
  subst, ℕ, ◌+◌, ◌≡◌, ◌==◌, refl, sym, ◌∙◌, Bool, true, false, Bool-cases, inl, inr, none, some,
  arith, if◌then◌else◌,
}
use go_proxy_mux.Tunnel.Shutdown.{if_true, if_false}
use go_proxy_mux.Tunnel.Idle.{
  IdleCloser, touch, stop, ring, read, Idles, begins, passes, stops, rings,
}

-- A timer that runs is due a duration after the last byte; it runs until it has closed the pair or
-- is stopped, and never again once it is stopped.
pub record Silence (duration last : ℕ) (c : IdleCloser) (closed : Bool) : Type 0 where
  pub due_then : (due : ℕ) → c.due ≡ some due → due ≡ last + duration
  pub runs : c.stopped ≡ false → closed ≡ false → c.due ≡ some (last + duration)
  pub stays_stopped : c.stopped ≡ true → c.due ≡ none

module _ (duration : ℕ) where
  over :
      (last : ℕ) (c : IdleCloser) (closed : Bool)
      → c.due ≡ none
      → c.stopped ≡ true
      → Silence duration last c closed
  over last c closed none_due stopped = record {
    due_then = λ due h. absurd (ground (arith, sym none_due ∙ h));
    runs = λ h k. absurd (ground arith);
    stays_stopped = λ h. none_due;
  }

  touch-Silence :
      (t last : ℕ) (c : IdleCloser) (closed : Bool)
      → Silence duration last c closed
      → Silence duration t (touch t duration c) closed
  unfolding touch
  touch-Silence t last c closed s = elim (Bool-cases c.stopped) [
    | inl stopped ↦
        subst (λ c'. Silence duration t c' closed) (sym (if_true c _ stopped))
          (over t c closed (s.stays_stopped stopped) stopped)
    | inr on ↦
        subst (λ c'. Silence duration t c' closed)
          (sym (if_false c (record c { due = some (t + duration) }) on))
          (record {
            due_then = λ due h. ground arith;
            runs = λ h k. refl;
            stays_stopped = λ h. absurd (ground arith);
          })
  ]

  read-Silence :
      (n t last : ℕ) (c : IdleCloser) (closed : Bool)
      → Silence duration last c closed
      → Silence duration (if n == 0 then last else t) (read n t duration c) closed
  unfolding read
  read-Silence n t last c closed s = elim (Bool-cases (n == 0)) [
    | inl nothing ↦ rw nothing s
    | inr bytes ↦ rw bytes (touch-Silence t last c closed s)
  ]

  ring-Silence :
      (last due : ℕ) (c : IdleCloser) (closed : Bool)
      → Silence duration last c closed
      → c.due ≡ some due
      → Silence duration last (ring c) true
  ring-Silence last due c closed s e = record {
    due_then = λ due h. absurd (ground arith);
    runs = λ h k. absurd (ground arith);
    stays_stopped = λ h. refl;
  }

  -- However reads, the end of the relay and the timer come: when the timer runs it is due exactly a
  -- duration after the last byte that either direction has read; it does run until it has closed
  -- the pair or the relay has ended, and once the relay has ended it never runs again.
  pub idles-Silence :
      (now last : ℕ) (c : IdleCloser) (closed : Bool)
      → Idles duration now last c closed
      → Silence duration last c closed
  idles-Silence _ _ _ _ (begins now) = record {
    due_then = λ due h. ground arith;
    runs = λ h k. refl;
    stays_stopped = λ h. absurd (ground arith);
  }
  idles-Silence _ _ _ _ (passes n now t last c closed before later) =
      read-Silence n t last c closed (idles-Silence now last c closed before)
  idles-Silence _ _ _ _ (stops now t last c closed before later) =
      over last (stop c) closed refl refl
  idles-Silence _ _ _ _ (rings now t last due c closed before later runs_now past) =
      ring-Silence last due c closed (idles-Silence now last c closed before) runs_now
