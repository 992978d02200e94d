-- ===== src/AuthLimit/Tests.antt =====
-- internal/proxy/auth_limit.go: runs on concrete limiters, and the theorems at them.
use go_proxy_mux.Prelude.{◌≡◌, refl, true, false, Bool, List, [], ◌∷◌, ◌++◌, some, arith}
use go_proxy_mux.Prelude.Int.{ℤ, pos, ◌+ℤ◌, ◌-ℤ◌}
use go_proxy_mux.Prelude.Bytes.{Bytes, codes, str_eq}
use go_proxy_mux.Prelude.Dict.{lookup, insert, delete}
use go_proxy_mux.Config.{default_config}
use go_proxy_mux.AuthLimit.{
  AuthFailure, AuthFailureLimiter, new_auth_failure_limiter, find, remove, replace, normal_ip,
  is_stale, attempt,
}
use go_proxy_mux.AuthLimit.Judge.{judge, punish, keep_newest, to_list}
use go_proxy_mux.AuthLimit.Agrees.{Agrees-nil, Agrees-insert}
use go_proxy_mux.AuthLimit.Refines.{IsValid, Done, attempt-Done, attempts, attempts-new_total}
use go_proxy_mux.AuthLimit.Lockout.{LockedOut, lockout}

program : Unit {0}
unfolding str_eq lookup insert delete find remove replace normal_ip is_stale attempt judge punish
    keep_newest ◌+ℤ◌ ◌-ℤ◌
program = tt

abbrev one : Bytes
one = codes "10.0.0.1"

abbrev two : Bytes
two = codes "10.0.0.2"

abbrev failing : AuthFailure
failing = record { ip = one; count = pos 1; window_start = pos 5; blocked_until = pos 0 }

abbrev blocked : AuthFailure
blocked = record { ip = two; count = pos 2; window_start = pos 1; blocked_until = pos 90 }

-- Two attempts in 10, a block of 80, two addresses at most.
abbrev table : AuthFailureLimiter
table = record {
  policy = record { max_attempts = pos 2; window = pos 10; block = pos 80; max_ips = pos 2 };
  by_ip = (one, one) ∷ (two, two) ∷ [];
  oldest_first = failing ∷ blocked ∷ [];
}

abbrev empty_table : AuthFailureLimiter
empty_table = record table { by_ip = []; oldest_first = [] }

table-IsValid : IsValid table
unfolding program
table-IsValid = record {
  agrees =
      Agrees-insert ((one, one) ∷ []) (failing ∷ []) (Agrees-insert [] [] Agrees-nil failing refl)
        blocked refl;
  some_room = omega arith;
  bounded = omega arith;
}

-- The second failure in the window blocks, and the address moves to the back.
test_second_failure :
    attempt table one false (pos 9)
    ≡ some (
      record table {
        oldest_first = blocked ∷ record failing { count = pos 2; blocked_until = pos 89 } ∷ [];
      },
      pos 80,
    )
unfolding program
test_second_failure = refl

-- A third address pushes the oldest out.
test_evicts :
    attempt table (codes "10.0.0.3") false (pos 9)
    ≡ some (
      record table {
        by_ip = (two, two) ∷ (codes "10.0.0.3", codes "10.0.0.3") ∷ [];
        oldest_first =
            blocked ∷ record failing { ip = codes "10.0.0.3"; window_start = pos 9 } ∷ [];
      },
      pos 0,
    )
unfolding program
test_evicts = refl

empty_table-IsValid : IsValid empty_table
empty_table-IsValid = record { agrees = Agrees-nil; some_room = omega arith; bounded = omega arith }

attempt-Done_example :
    let verdict =
      judge table.policy (find (normal_ip one) table.oldest_first) (normal_ip one) false (pos 9) in
    Done table
      (keep_newest table.max_ips (remove (normal_ip one) table.oldest_first ++ to_list verdict.0))
      verdict.1
      (attempt table one false (pos 9))
attempt-Done_example = attempt-Done table one false (pos 9) table-IsValid

lockout_example : LockedOut empty_table empty_table.policy one 0 (pos 3) (pos 3) (pos 7 ∷ [])
unfolding program
lockout_example =
    lockout empty_table one (pos 3) (pos 7 ∷ []) empty_table-IsValid refl
      ((omega arith, omega arith), tt) refl

abbrev calls : List (Bytes × Bool × ℤ)
calls = (one, false, pos 3) ∷ (two, true, pos 4) ∷ (one, false, pos 5) ∷ []

attempts-new_total_example :
    (l : AuthFailureLimiter) × (attempts (new_auth_failure_limiter default_config.auth) calls
      ≡ some l)
    × IsValid l
attempts-new_total_example = attempts-new_total default_config.auth calls (omega arith)
