-- ===== src/AuthLimit/Lockout.antt =====
-- internal/proxy/auth_limit.go: what a client sees of `attempt`: the block, and how it ends.
use go_proxy_mux.Prelude.{
  ℕ, suc, ◌+◌, ◌≡◌, refl, sym, ap, ◌∙◌, Bool, true, false, List, [], ◌∷◌, ◌++◌, Option, none, some,
  arith, length, replicate, All,
}
use mathlib.Core.List.{append-nil}
use go_proxy_mux.Prelude.Int.{ℤ, pos, ◌+ℤ◌, ◌-ℤ◌, ◌≤ℤ◌, ◌<ℤ◌, ltb_ℤ, leb_ℤ, int_laws}
use go_proxy_mux.Prelude.Bytes.{Bytes, str_eq_iff}
use go_proxy_mux.AuthLimit.{
  AuthFailure, Policy, AuthFailureLimiter, ◌>>=◌, find, remove, normal_ip, is_stale, attempt,
}
use go_proxy_mux.AuthLimit.Table.{find-ip, find-remove, find-snoc}
use go_proxy_mux.AuthLimit.Judge.{judge, punish, kept, keep_newest}
use go_proxy_mux.AuthLimit.Refines.{IsValid, Done, attempt-Done}

-- The entry put at the back is found again.
find-keep_newest :
    (bound : ℤ) (xs : List AuthFailure) (e : AuthFailure) (ip : Bytes)
    → pos 1 ≤ℤ bound
    → find ip xs ≡ none
    → e.ip ≡ ip
    → find ip (keep_newest bound (xs ++ e ∷ [])) ≡ some e
unfolding keep_newest find
find-keep_newest bound [] e ip room absent same = ground (arith, str_eq_iff e.ip ip)
find-keep_newest bound (x ∷ xs) e ip room absent same =
    ground (arith, str_eq_iff e.ip ip, find-snoc ip xs e)

find-keep_newest-none :
    (bound : ℤ) (xs : List AuthFailure) (ip : Bytes)
    → find ip xs ≡ none
    → find ip (keep_newest bound xs) ≡ none
unfolding keep_newest find
find-keep_newest-none bound [] ip absent = absent
find-keep_newest-none bound (x ∷ xs) ip absent = ground arith

module _ (l : AuthFailureLimiter) (given : Bytes) (valid : Bool) (now : ℤ) (v : IsValid l) where
  abbrev ip : Bytes
  ip = normal_ip given

  -- An attempt whose verdict keeps an entry leaves that entry in the table.
  attempt_keeps :
      (e : AuthFailure) (block : ℤ)
      → judge l.policy (find ip l.oldest_first) ip valid now ≡ (some e, block)
      → e.ip ≡ ip
      → (l' : AuthFailureLimiter) × (attempt l given valid now ≡ some (l', block))
        × IsValid l'
        × (l'.policy ≡ l.policy)
        × (find ip l'.oldest_first ≡ some e)
  attempt_keeps e block verdict same =
      let bound = l.max_ips in
      let others = remove ip l.oldest_first in
      let done : Done l (keep_newest bound (others ++ e ∷ [])) block (attempt l given valid now) =
        rw verdict at (attempt-Done l given valid now v) in
      let absent : find ip others ≡ none =
        find-remove ip ip l.oldest_first v.agrees.distinct ∙ (rw ((str_eq_iff ip ip).1 refl)) in
      (
        done.after,
        done.returns,
        done.valid,
        done.policy,
        ap (find ip) done.entries ∙ find-keep_newest bound others e ip v.some_room absent same,
      )

  -- While an address is blocked every attempt from it is rejected, with valid credentials too, for
  -- the time that the block still has; and the block stays as it is.
  pub attempt_while_blocked :
      (e : AuthFailure)
      → find ip l.oldest_first ≡ some e
      → now <ℤ e.blocked_until
      → (l' : AuthFailureLimiter) × (attempt l given valid now ≡ some (l', e.blocked_until -ℤ now))
        × (find ip l'.oldest_first ≡ some e)
  unfolding judge
  attempt_while_blocked e p early =
      let blocked : ltb_ℤ now e.blocked_until ≡ true = ground arith in
      let (l', returns, _, _, found) =
        attempt_keeps e (e.blocked_until -ℤ now) (rw p (rw blocked))
          (find-ip ip l.oldest_first e p) in
      (l', returns, found)

judge_valid :
    (p : Policy) (o : Option AuthFailure) (ip : Bytes) (now : ℤ)
    → ((e : AuthFailure) → o ≡ some e → e.blocked_until ≤ℤ now)
    → judge p o ip true now ≡ (none, pos 0)
unfolding judge
judge_valid p none ip now free = refl
judge_valid p (some e) ip now free = ground (arith, free e refl)

-- Valid credentials from an address that is not blocked are let in, and its failures are forgotten.
pub attempt_valid :
    (l : AuthFailureLimiter) (given : Bytes) (now : ℤ)
    → IsValid l
    → ((e : AuthFailure) → find (normal_ip given) l.oldest_first ≡ some e → e.blocked_until ≤ℤ now)
    → (l' : AuthFailureLimiter) × (attempt l given true now ≡ some (l', pos 0))
      × (find (normal_ip given) l'.oldest_first ≡ none)
unfolding judge
attempt_valid l given now v free =
    let ip = normal_ip given in
    let others = remove ip l.oldest_first in
    let absent : find ip others ≡ none =
      find-remove ip ip l.oldest_first v.agrees.distinct ∙ (rw ((str_eq_iff ip ip).1 refl)) in
    let done : Done l (keep_newest l.max_ips (others ++ [])) (pos 0) (attempt l given true now) =
      rw (judge_valid l.policy (find ip l.oldest_first) ip now free) at
        (attempt-Done l given true now v) in
    (
      done.after,
      done.returns,
      ap (find ip) done.entries
          ∙ find-keep_newest-none l.max_ips (others ++ []) ip (rw append-nil absent),
    )

-- The entry of an address that has failed `c` times since `start`, and is not blocked.
abbrev pub counting : Bytes → ℕ → ℤ → AuthFailure
counting ip c start = record { ip = ip; count = pos c; window_start = start; blocked_until = pos 0 }

abbrev pub locked : Bytes → ℕ → ℤ → ℤ → AuthFailure
locked ip c start until = record {
  ip = ip;
  count = pos c;
  window_start = start;
  blocked_until = until;
}

-- The attempts that a client makes, one after another, with the results.
pub failures : AuthFailureLimiter → Bytes → List ℤ → Option (AuthFailureLimiter × List ℤ)
failures l given [] = some (l, [])
failures l given (now ∷ times) = do
  (l', d) ← attempt l given false now
  (l'', ds) ← failures l' given times
  some (l'', d ∷ ds)

-- A failure that finds `c` others in its window, at a time after the zero time.
abbrev pub InWindow : Policy → ℤ → ℤ → Type 0
InWindow p start now = (pos 0 ≤ℤ now) × (now -ℤ start <ℤ p.window)

pos_add : (n : ℕ) → pos n +ℤ pos 1 ≡ pos (suc n)
pos_add n = omega int_laws

judge-counting :
    (p : Policy) (ip : Bytes) (c : ℕ) (start now : ℤ)
    → InWindow p start now
    → judge p (some (counting ip c start)) ip false now ≡ kept (punish p (counting ip c start) now)
unfolding judge is_stale
judge-counting p ip c start now w = ground arith

punish-counting :
    (p : Policy) (ip : Bytes) (c : ℕ) (start now : ℤ)
    → pos (suc c) <ℤ p.max_attempts
    → punish p (counting ip c start) now ≡ (counting ip (suc c) start, pos 0)
unfolding punish
punish-counting p ip c start now more =
    rw pos_add (let test : leb_ℤ p.max_attempts (pos (suc c)) ≡ false = ground arith in rw test)

punish_last :
    (p : Policy) (ip : Bytes) (c : ℕ) (start now : ℤ)
    → p.max_attempts ≡ pos (suc c)
    → punish p (counting ip c start) now ≡ (locked ip (suc c) start (now +ℤ p.block), p.block)
unfolding punish
punish_last p ip c start now limit =
    rw pos_add (let test : leb_ℤ p.max_attempts (pos (suc c)) ≡ true = ground arith in rw test)

abbrev pub last_of : ℤ → List ℤ → ℤ
last_of now [] = now
last_of now (t ∷ ts) = last_of t ts

failures-nil : (l : AuthFailureLimiter) (given : Bytes) → failures l given [] ≡ some (l, [])
unfolding failures
failures-nil l given = refl

failures_step :
    (l l' l'' : AuthFailureLimiter) (given : Bytes) (now d : ℤ) (times ds : List ℤ)
    → attempt l given false now ≡ some (l', d)
    → failures l' given times ≡ some (l'', ds)
    → failures l given (now ∷ times) ≡ some (l'', d ∷ ds)
unfolding failures
failures_step l l' l'' given now d times ds first rest =
    ap (λ r. r >>= after) first ∙ ap (λ r. r >>= λ (m, xs). some (m, d ∷ xs)) rest
  where
    after : AuthFailureLimiter × ℤ → Option (AuthFailureLimiter × List ℤ)
    after (m, e) = do (m', xs) ← failures m given times; some (m', e ∷ xs)

-- The end of a run of failures that reaches the limit.
abbrev pub LockedOut : AuthFailureLimiter → Policy → Bytes → ℕ → ℤ → ℤ → List ℤ → Type 0
LockedOut l p given c start now times =
    (l' : AuthFailureLimiter) × (failures l given (now ∷ times)
      ≡ some (l', replicate (length times) (pos 0) ++ p.block ∷ []))
    × (find (normal_ip given) l'.oldest_first
        ≡ some (
            locked (normal_ip given) (c + suc (length times)) start (last_of now times +ℤ p.block)))

lockout_from :
    (l : AuthFailureLimiter) (p : Policy) (given : Bytes) (c : ℕ) (start now : ℤ) (times : List ℤ)
    → IsValid l
    → l.policy ≡ p
    → judge p (find (normal_ip given) l.oldest_first) (normal_ip given) false now
      ≡ kept (punish p (counting (normal_ip given) c start) now)
    → All (InWindow p start) times
    → p.max_attempts ≡ pos (c + suc (length times))
    → LockedOut l p given c start now times
lockout_from l p given c start now [] v same verdict w limit =
    let more : c + 1 ≡ suc c = omega arith in
    let ip = normal_ip given in
    let ends = verdict ∙ ap kept (punish_last p ip c start now (limit ∙ ap pos more)) in
    let (l', returns, _, _, found) = attempt_keeps l given false now v _ _ (rw same ends) refl in
    (
      l',
      failures_step l l' l' given now p.block [] [] returns (failures-nil l' given),
      found ∙ ap (λ n. some (locked ip n start (now +ℤ p.block))) (sym more),
    )
lockout_from l p given c start now (t ∷ ts) v same verdict w limit =
    let ip = normal_ip given in
    let more : pos (suc c) <ℤ p.max_attempts = rw limit (omega arith) in
    let turn : c + suc (length (t ∷ ts)) ≡ suc c + suc (length ts) = omega arith in
    let goes_on = verdict ∙ ap kept (punish-counting p ip c start now more) in
    let (l', returns, v', policy, found) =
      attempt_keeps l given false now v _ _ (rw same goes_on) refl in
    let (l'', fails, ends) =
      lockout_from l' p given (suc c) start t ts v' (policy ∙ same)
        (ap (λ o. judge p o ip false t) found ∙ judge-counting p ip (suc c) start t w.0) w.1
        (limit ∙ ap pos turn) in
    (
      l'',
      failures_step l l' l'' given now (pos 0) (t ∷ ts) _ returns fails,
      ends ∙ ap (λ n. some (locked ip n start (last_of t ts +ℤ p.block))) (sym turn),
    )

-- From an address with no failures on record, `max_attempts` failed attempts within the window
-- answer no block before the last, and the last answers the full block, which then ends that long
-- after it.
pub lockout :
    (l : AuthFailureLimiter) (given : Bytes) (now : ℤ) (times : List ℤ)
    → IsValid l
    → find (normal_ip given) l.oldest_first ≡ none
    → All (InWindow l.policy now) times
    → l.max_attempts ≡ pos (suc (length times))
    → LockedOut l l.policy given 0 now now times
unfolding judge
lockout l given now times v absent w limit =
    let count : suc (length times) ≡ 0 + suc (length times) = omega arith in
    lockout_from l l.policy given 0 now now times v refl
      (ap (λ o. judge l.policy o (normal_ip given) false now) absent) w (limit ∙ ap pos count)
