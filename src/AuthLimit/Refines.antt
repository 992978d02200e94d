-- ===== src/AuthLimit/Refines.antt =====
-- internal/proxy/auth_limit.go: `attempt` never panics and refines the specification of Judge.
use mathlib.Core.List.{append-nil}
use go_proxy_mux.Prelude.{
  ◌+◌, ◌≡◌, refl, sym, ap, subst, ◌∙◌, inl, inr, Bool, true, false, Bool-cases, Option-cases, List,
  [], ◌∷◌, ◌++◌, Option, none, some, arith, length, length-append, if◌then◌else◌,
}
use go_proxy_mux.Prelude.Int.{ℤ, pos, ◌+ℤ◌, ◌≤ℤ◌, ◌<ℤ◌, dec_lt_ℤ, ltb_ℤ, leb_ℤ}
use go_proxy_mux.Prelude.Bytes.{Bytes, str_eq_iff}
use go_proxy_mux.Prelude.Dict.{insert, delete}
use go_proxy_mux.Config.{AuthConfig}
use go_proxy_mux.AuthLimit.{
  new_auth_failure_limiter, AuthFailure, Policy, AuthFailureLimiter, ◌>>=◌, find, remove, front,
  normal_ip, count_failure, known, make_room, new_entry, unknown, attempt_at, attempt,
}
use go_proxy_mux.AuthLimit.Table.{
  find-ip, find-remove, length-remove, remove-snoc, replace-snoc, remove_absent,
}
use go_proxy_mux.AuthLimit.Agrees.{Agrees, Agrees-nil, Agrees-remove, Agrees-insert, Agrees-move}
use go_proxy_mux.AuthLimit.Judge.{judge, punish, renewed, kept, keep_newest, to_list}

pub record IsValid (l : AuthFailureLimiter) : Type 0 where
  pub agrees : Agrees l.by_ip l.oldest_first
  pub some_room : pos 1 ≤ℤ l.max_ips
  pub bounded : pos (length l.oldest_first) ≤ℤ l.max_ips

-- An attempt that succeeded in a state with these entries, with this block.
pub record Done (l : AuthFailureLimiter) (es : List AuthFailure) (block : ℤ)
    (r : Option (AuthFailureLimiter × ℤ)) : Type 0 where
  pub after : AuthFailureLimiter
  pub returns : r ≡ some (after, block)
  pub policy : after.policy ≡ l.policy
  pub entries : after.oldest_first ≡ es
  pub valid : IsValid after

-- A write to the entry at the back.
count_failure-snoc :
    (l : AuthFailureLimiter) (xs : List AuthFailure) (e base : AuthFailure) (now : ℤ)
    → l.oldest_first ≡ xs ++ e ∷ []
    → find base.ip xs ≡ none
    → e.ip ≡ base.ip
    → count_failure l base now ≡ (
      record l { oldest_first = xs ++ (punish l.policy base now).0 ∷ [] },
      (punish l.policy base now).1,
    )
unfolding count_failure punish
count_failure-snoc l xs e base now at_back absent same =
    elim (Bool-cases (leb_ℤ l.max_attempts (base.count +ℤ pos 1))) [
      | inl limit ↦
          rw (limit, at_back)
            (ap (λ es. (record l { oldest_first = es }, l.block)) (replace-snoc xs e _ absent same))
      | inr more ↦
          rw (more, at_back)
            (ap (λ es. (record l { oldest_first = es }, pos 0)) (replace-snoc xs e _ absent same))
    ]

keep_newest_all :
    (bound : ℤ) (es : List AuthFailure) → pos (length es) ≤ℤ bound → keep_newest bound es ≡ es
unfolding keep_newest
keep_newest_all bound [] h = refl
keep_newest_all bound (e ∷ es) h = ground arith

-- A state whose entries fit is one that keeps the newest of them.
Done-fits :
    (l : AuthFailureLimiter) (by_ip : List (Bytes × Bytes)) (es : List AuthFailure) (block : ℤ)
    → Agrees by_ip es
    → pos 1 ≤ℤ l.max_ips
    → pos (length es) ≤ℤ l.max_ips
    → Done l
        (keep_newest l.max_ips es)
        block
        (some (record l { by_ip = by_ip; oldest_first = es }, block))
Done-fits l by_ip es block a room fits = record {
  after = record l { by_ip = by_ip; oldest_first = es };
  returns = refl;
  policy = refl;
  entries = sym (keep_newest_all l.max_ips es fits);
  valid = record { agrees = a; some_room = room; bounded = fits };
}

pub renewed-ip : (p : Policy) (e : AuthFailure) (now : ℤ) → (renewed p e now).ip ≡ e.ip
renewed-ip p e now = ground arith

pub punish-ip : (p : Policy) (e : AuthFailure) (now : ℤ) → (punish p e now).0.ip ≡ e.ip
unfolding punish
punish-ip p e now = ground arith

module _ (l : AuthFailureLimiter) (v : IsValid l) (ip : Bytes) (now : ℤ) where
  find-removed : find ip (remove ip l.oldest_first) ≡ none
  find-removed =
      find-remove ip ip l.oldest_first v.agrees.distinct ∙ (rw ((str_eq_iff ip ip).1 refl))

  -- An entry for the address, put at the back.
  Done-moved :
      (e e' : AuthFailure) (block : ℤ)
      → find ip l.oldest_first ≡ some e
      → e'.ip ≡ ip
      → Done l
          (keep_newest l.max_ips (remove ip l.oldest_first ++ e' ∷ []))
          block
          (some (record l { oldest_first = remove ip l.oldest_first ++ e' ∷ [] }, block))
  Done-moved e e' block p same =
      Done-fits l l.by_ip (remove ip l.oldest_first ++ e' ∷ []) block
        (subst (λ h. Agrees l.by_ip (remove h l.oldest_first ++ e' ∷ [])) same
          (Agrees-move l.by_ip l.oldest_first v.agrees e e' (rw same p)))
        v.some_room
        (omega (
          arith,
          length-remove ip l.oldest_first e p,
          length-append (remove ip l.oldest_first) (e' ∷ []),
          v.bounded,
        ))

  Done-removed :
      (e : AuthFailure) (block : ℤ)
      → find ip l.oldest_first ≡ some e
      → Done l (keep_newest l.max_ips (remove ip l.oldest_first)) block (
          some (
            record l { by_ip = delete ip l.by_ip; oldest_first = remove ip l.oldest_first },
            block,
          ))
  Done-removed e block p =
      Done-fits l (delete ip l.by_ip) (remove ip l.oldest_first) block
        (Agrees-remove l.by_ip l.oldest_first v.agrees ip e p) v.some_room
        (omega (arith, length-remove ip l.oldest_first e p, v.bounded))

  known-Done :
      (valid : Bool) (e : AuthFailure)
      → find ip l.oldest_first ≡ some e
      → let verdict = judge l.policy (some e) ip valid now in
        Done l (keep_newest l.max_ips (remove ip l.oldest_first ++ to_list verdict.0)) verdict.1 (
          some (
            known
              (record l { oldest_first = remove ip l.oldest_first ++ e ∷ [] })
              ip
              ip
              valid
              now
              e))
  unfolding known judge
  known-Done valid e p = elim (Bool-cases (ltb_ℤ now e.blocked_until)) [
    | inl blocked ↦ rw blocked (Done-moved e e _ p (find-ip ip l.oldest_first e p))
    | inr free ↦ rw free (go valid)
  ]
    where
      xs : List AuthFailure
      xs = remove ip l.oldest_first

      moved : AuthFailureLimiter
      moved = record l { oldest_first = xs ++ e ∷ [] }

      base : AuthFailure
      base = renewed l.policy e now

      base-ip : base.ip ≡ ip
      base-ip = renewed-ip l.policy e now ∙ find-ip ip l.oldest_first e p

      go :
          (b : Bool)
          → let verdict = if b then (none, pos 0) else kept (punish l.policy base now) in
            Done l (keep_newest l.max_ips (xs ++ to_list verdict.0)) verdict.1 (
              some (
                if b
                then (
                  record moved {
                    oldest_first = remove ip (xs ++ e ∷ []);
                    by_ip = delete ip l.by_ip;
                  },
                  pos 0,
                )
                else count_failure moved base now))
      go true =
          rw (append-nil, remove-snoc ip xs e find-removed (find-ip ip l.oldest_first e p))
            (Done-removed e (pos 0) p)
      go false =
          rw
            (count_failure-snoc moved xs e base now refl (rw base-ip find-removed)
              (sym (renewed-ip l.policy e now)))
            (Done-moved e (punish l.policy base now).0 _ p (punish-ip l.policy base now ∙ base-ip))

  added : AuthFailure
  added = (punish l.policy (new_entry ip now) now).0

  added_block : ℤ
  added_block = (punish l.policy (new_entry ip now) now).1

  -- A new address joins a table that has room for it.
  Done-added :
      (by_ip : List (Bytes × Bytes)) (es : List AuthFailure)
      → Agrees by_ip es
      → find ip es ≡ none
      → pos (length es + 1) ≤ℤ l.max_ips
      → Done l (es ++ added ∷ []) added_block (
          some (
            count_failure
              (record l { by_ip = insert ip ip by_ip; oldest_first = es ++ new_entry ip now ∷ [] })
              (new_entry ip now)
              now))
  unfolding added added_block
  Done-added by_ip es a absent fits =
      let same = punish-ip l.policy (new_entry ip now) now in
      let more = length-append es (added ∷ []) in
      rw
        (count_failure-snoc
          (record l { by_ip = insert ip ip by_ip; oldest_first = es ++ new_entry ip now ∷ [] }) es
          (new_entry ip now) (new_entry ip now) now refl absent refl)
        (record {
          after = record l { by_ip = insert ip ip by_ip; oldest_first = es ++ added ∷ [] };
          returns = refl;
          policy = refl;
          entries = refl;
          valid = record {
            agrees =
                subst (λ h. Agrees (insert h h by_ip) (es ++ added ∷ [])) same
                  (Agrees-insert by_ip es a added (rw same absent));
            some_room = v.some_room;
            bounded = omega arith;
          };
        })

  -- The oldest entry goes, and then the new address joins.
  Done-evicted :
      (oldest : AuthFailure) (rest : List AuthFailure)
      → l.oldest_first ≡ oldest ∷ rest
      → find ip (oldest ∷ rest) ≡ none
      → Done l (rest ++ added ∷ []) added_block (
          some (
            count_failure
              (record l {
                by_ip = insert ip ip (delete oldest.ip l.by_ip);
                oldest_first = rest ++ new_entry ip now ∷ [];
              })
              (new_entry ip now)
              now))
  unfolding find remove
  Done-evicted oldest rest e absent =
      let here = (str_eq_iff oldest.ip oldest.ip).1 refl in
      let agrees : Agrees l.by_ip (oldest ∷ rest) = subst (Agrees l.by_ip) e v.agrees in
      let a = Agrees-remove l.by_ip (oldest ∷ rest) agrees oldest.ip oldest (rw here) in
      Done-added (delete oldest.ip l.by_ip) rest (rw here at a) (ground arith)
        (omega (arith, ap (length {A = AuthFailure}) e, v.bounded))

  full_newest :
      (oldest : AuthFailure) (rest : List AuthFailure) (e : AuthFailure)
      → l.max_ips ≤ℤ pos (length (oldest ∷ rest))
      → keep_newest l.max_ips (oldest ∷ rest ++ e ∷ []) ≡ rest ++ e ∷ []
  unfolding keep_newest
  full_newest oldest rest e full = ground (arith, length-append rest (e ∷ []))

  make_room_full :
      (oldest : AuthFailure) (rest : List AuthFailure)
      → l.oldest_first ≡ oldest ∷ rest
      → l.max_ips ≤ℤ pos (length l.by_ip)
      → make_room l ≡ some (record l { by_ip = delete oldest.ip l.by_ip; oldest_first = rest })
  unfolding make_room front remove
  make_room_full oldest rest e full =
      let here = (str_eq_iff oldest.ip oldest.ip).1 refl in
      let test : leb_ℤ l.max_ips (pos (length l.by_ip)) ≡ true = ground arith in
      rw (test, e) (rw here)

  make_room_spare : pos (length l.by_ip) <ℤ l.max_ips → make_room l ≡ some l
  unfolding make_room
  make_room_spare spare =
      let test : leb_ℤ l.max_ips (pos (length l.by_ip)) ≡ false = ground arith in rw test

  failed-Done :
      (es : List AuthFailure)
      → l.oldest_first ≡ es
      → find ip es ≡ none
      → l.max_ips ≤ℤ pos (length es)
      → Done l (keep_newest l.max_ips (es ++ added ∷ [])) added_block (unknown l ip false now)
  unfolding unknown
  failed-Done [] same absent full = absurd (omega (arith, v.some_room))
  failed-Done (oldest ∷ rest) same absent full =
      let size = ap (length {A = AuthFailure}) same in
      rw (full_newest oldest rest added full) (
        rw (make_room_full oldest rest same (omega (arith, v.agrees.sized)))
          (Done-evicted oldest rest same absent))

  unknown-Done :
      (valid : Bool)
      → find ip l.oldest_first ≡ none
      → let verdict = judge l.policy none ip valid now in
        Done l
          (keep_newest l.max_ips (l.oldest_first ++ to_list verdict.0))
          verdict.1
          (unknown l ip valid now)
  unfolding unknown judge added added_block
  unknown-Done true absent =
      rw append-nil (Done-fits l l.by_ip l.oldest_first (pos 0) v.agrees v.some_room v.bounded)
  unknown-Done false absent = elim (dec_lt_ℤ (pos (length l.oldest_first)) l.max_ips) [
    | inl spare ↦
        let fits : pos (length (l.oldest_first ++ added ∷ [])) ≤ℤ l.max_ips =
          omega (arith, length-append l.oldest_first (added ∷ []), spare) in
        rw (keep_newest_all l.max_ips (l.oldest_first ++ added ∷ []) fits) (
          rw (make_room_spare (omega (arith, v.agrees.sized, spare)))
            (Done-added l.by_ip l.oldest_first v.agrees absent (omega (arith, spare))))
    | inr full ↦ failed-Done l.oldest_first refl absent full
  ]

-- `attempt` never panics, and keeps the limiter valid; the block that it returns is the one that
-- the specification gives for the address's own entry; and the list afterwards holds the address's
-- new entry last, behind the others in their order, without the oldest where there is no room.
pub attempt-Done :
    (l : AuthFailureLimiter) (given : Bytes) (valid : Bool) (now : ℤ)
    → IsValid l
    → let ip = normal_ip given in
      let verdict = judge l.policy (find ip l.oldest_first) ip valid now in
      Done l
        (keep_newest l.max_ips (remove ip l.oldest_first ++ to_list verdict.0))
        verdict.1
        (attempt l given valid now)
unfolding attempt attempt_at
attempt-Done l given valid now v =
    let ip = normal_ip given in
    elim (Option-cases (find ip l.oldest_first)) [
      | inl absent ↦
          rw (absent, remove_absent ip l.oldest_first absent)
            (rw (rw absent at (v.agrees.agree ip), attempt_at)
              (unknown-Done l v ip now valid absent))
      | inr (e, p) ↦
          rw p
            (rw (rw p at (v.agrees.agree ip), attempt_at) (rw p (known-Done l v ip now valid e p)))
    ]

pub new-IsValid :
    (cfg : AuthConfig) → pos 1 ≤ℤ cfg.max_tracked_ips → IsValid (new_auth_failure_limiter cfg)
unfolding new_auth_failure_limiter
new-IsValid cfg h = record { agrees = Agrees-nil; some_room = h; bounded = omega (arith, h) }

-- Attempts one after another: the address, whether the credentials are valid, and the time.
pub attempts : AuthFailureLimiter → List (Bytes × Bool × ℤ) → Option AuthFailureLimiter
attempts l [] = some l
attempts l ((given, valid, now) ∷ rest) = attempt l given valid now >>= λ (l', _). attempts l' rest

attempts_total :
    (l : AuthFailureLimiter) (calls : List (Bytes × Bool × ℤ))
    → IsValid l
    → (l' : AuthFailureLimiter) × (attempts l calls ≡ some l') × IsValid l'
unfolding attempts
attempts_total l [] v = (l, refl, v)
attempts_total l ((given, valid, now) ∷ rest) v =
    let done = attempt-Done l given valid now v in
    let (l', runs, v') = attempts_total done.after rest done.valid in
    (l', ap (λ r. r >>= λ (m, _). attempts m rest) done.returns ∙ runs, v')

-- From a new limiter no sequence of attempts panics, and after it the map and the list hold the
-- same addresses, each once, and at most as many as may be tracked.
pub attempts-new_total :
    (cfg : AuthConfig) (calls : List (Bytes × Bool × ℤ))
    → pos 1 ≤ℤ cfg.max_tracked_ips
    → (l : AuthFailureLimiter) × (attempts (new_auth_failure_limiter cfg) calls ≡ some l)
      × IsValid l
attempts-new_total cfg calls h = attempts_total _ calls (new-IsValid cfg h)
