-- ===== src/Socks/Wire.antt =====
-- internal/socks/socks.go: a conversation with the proxy. The peer's bytes, and what each Write
-- does, are given beforehand; what is sent is recorded. A Write of `n` bytes takes at most the
-- bytes that it is given; when `writes` is used up each Write takes all.
use go_proxy_mux.Prelude.{
  ℕ, zero, suc, ◌≡◌, refl, sym, ap, ◌∙◌, inl, inr, Bool, true, false, List, [], ◌∷◌, ◌++◌, arith,
  length, take, drop, leb, take-append-drop, length-take_le, if◌then◌else◌, Bool-cases,
}
use mathlib.Core.List.{append_assoc, append-nil}
use go_proxy_mux.Prelude.Bytes.{Bytes}

pub data Error : Type 0 where
  network unsupported_destination short_write invalid context_done : Error
  rejected : ℕ → Error

pub data Result {ℓ} (A : Type ℓ) : Type ℓ where
  ok : A → Result A
  err : Error → Result A

pub data WriteResult : Type 0 where
  wrote : ℕ → WriteResult
  write_fails : ℕ → WriteResult

pub record Wire : Type 0 where
  pub incoming : Bytes
  pub sent : Bytes
  pub writes : List WriteResult

abbrev pub M : Type 0 → Type 0
M A = Wire → Wire × Result A

abbrev pub continue : {A B : Type 0} → (A → M B) → Wire × Result A → Wire × Result B
continue f (w, ok a) = f a w
continue f (w, err e) = (w, err e)

infixl 5 ◌>>=◌ ◌>>◌
abbrev pub ◌>>=◌ : {A B : Type 0} → M A → (A → M B) → M B
◌>>=◌ m f w = continue f (m w)

abbrev pub ◌>>◌ : {B : Type 0} → M (Unit {0}) → M B → M B
m >> k = m >>= λ _. k

abbrev pub give : {A : Type 0} → A → M A
give a w = (w, ok a)

abbrev pub done : M (Unit {0})
done = give tt

abbrev pub fail : {A : Type 0} → Error → M A
fail e w = (w, err e)

abbrev pub lift : {A : Type 0} → Result A → M A
lift r w = (w, r)

-- `if test { return err }`
abbrev pub fail_if : Bool → Error → M (Unit {0})
fail_if true e = fail e
fail_if false e = done

-- The loop of `writeAll`, over what the Writes do.
write_loop : Bytes → List WriteResult → M (Unit {0})
write_loop [] ws w = (record w { writes = ws }, ok tt)
write_loop (b ∷ bs) [] w = (record w { sent = w.sent ++ b ∷ bs; writes = [] }, ok tt)
write_loop (b ∷ bs) (write_fails n ∷ ws) w =
    (record w { sent = w.sent ++ take n (b ∷ bs); writes = ws }, err network)
write_loop (b ∷ bs) (wrote zero ∷ ws) w = (record w { writes = ws }, err short_write)
write_loop (b ∷ bs) (wrote (suc n) ∷ ws) w =
    write_loop (drop n bs) ws (record w { sent = w.sent ++ b ∷ take n bs })

unfoldable pub write_all : Bytes → M (Unit {0})
unfolding write_loop
write_all bytes w = write_loop bytes w.writes w

-- `io.ReadFull` of `n` bytes; when the peer sends fewer it fails once they are used up.
unfoldable pub read_full : ℕ → M Bytes
read_full n w =
    if leb n (length w.incoming)
    then (record w { incoming = drop n w.incoming }, ok (take n w.incoming))
    else (record w { incoming = [] }, err network)

-- What a write comes to: all of the bytes are sent, or an initial part of them and an error.
pub data Written (bytes : Bytes) (w : Wire) (r : Wire × Result (Unit {0})) : Type 0 where
  all_sent :
      (ws : List WriteResult)
      → r ≡ (record w { sent = w.sent ++ bytes; writes = ws }, ok tt)
      → Written bytes w r
  part_sent :
      (part missing : Bytes) (ws : List WriteResult) (e : Error)
      → part ++ missing ≡ bytes
      → r ≡ (record w { sent = w.sent ++ part; writes = ws }, err e)
      → Written bytes w r

Written-later :
    (b : ℕ) (bs : Bytes) (n : ℕ) (w : Wire) (r : Wire × Result (Unit {0}))
    → Written (drop n bs) (record w { sent = w.sent ++ b ∷ take n bs }) r
    → Written (b ∷ bs) w r
Written-later b bs n w r (all_sent ws e) = all_sent ws (
    e
    ∙ ap (λ s. (record w { sent = s; writes = ws }, ok tt))
        (append_assoc w.sent (b ∷ take n bs) (drop n bs)
          ∙ ap (λ t. w.sent ++ b ∷ t) (take-append-drop n bs)))
Written-later b bs n w r (part_sent part missing ws x split e) =
    part_sent (b ∷ take n bs ++ part) missing ws x
      (append_assoc (b ∷ take n bs) part missing
        ∙ ap (λ t. b ∷ take n bs ++ t) split
        ∙ ap (◌∷◌ b) (take-append-drop n bs))
      (e
        ∙ ap (λ s. (record w { sent = s; writes = ws }, err x))
            (append_assoc w.sent (b ∷ take n bs) part))

write_loop-Written :
    (bytes : Bytes) (ws : List WriteResult) (w : Wire) → Written bytes w (write_loop bytes ws w)
unfolding write_loop
write_loop-Written [] ws w =
    all_sent ws (ap (λ s. (record w { sent = s; writes = ws }, ok tt)) (sym (append-nil w.sent)))
write_loop-Written (b ∷ bs) [] w = all_sent [] refl
write_loop-Written (b ∷ bs) (write_fails n ∷ ws) w =
    part_sent (take n (b ∷ bs)) (drop n (b ∷ bs)) ws network (take-append-drop n (b ∷ bs)) refl
write_loop-Written (b ∷ bs) (wrote zero ∷ ws) w =
    part_sent [] (b ∷ bs) ws short_write refl
      (ap (λ s. (record w { sent = s; writes = ws }, err short_write)) (sym (append-nil w.sent)))
write_loop-Written (b ∷ bs) (wrote (suc n) ∷ ws) w =
    Written-later b bs n w _
      (write_loop-Written (drop n bs) ws (record w { sent = w.sent ++ b ∷ take n bs }))

-- Over any sequence of short and failed Writes `writeAll` either sends exactly its bytes, once and
-- in order, and succeeds, or sends an initial part of them and returns an error; it reads nothing.
pub write_all-Written : (bytes : Bytes) (w : Wire) → Written bytes w (write_all bytes w)
unfolding write_all
write_all-Written bytes w = write_loop-Written bytes w.writes w

-- What a read comes to.
pub data ReadResult (n : ℕ) (w : Wire) (r : Wire × Result Bytes) : Type 0 where
  got :
      (bytes rest : Bytes)
      → length bytes ≡ n
      → w.incoming ≡ bytes ++ rest
      → r ≡ (record w { incoming = rest }, ok bytes)
      → ReadResult n w r
  cut_short : r ≡ (record w { incoming = [] }, err network) → ReadResult n w r

pub read_full-ReadResult : (n : ℕ) (w : Wire) → ReadResult n w (read_full n w)
unfolding read_full
read_full-ReadResult n w = elim (Bool-cases (leb n (length w.incoming))) [
  | inl enough ↦
      got (take n w.incoming) (drop n w.incoming) (length-take_le n w.incoming (ground arith))
        (sym (take-append-drop n w.incoming)) (rw enough)
  | inr short ↦ cut_short (rw short)
]

-- A chain that succeeds did each of its steps.
continue-eq-ok :
    {A B : Type 0} (f : A → M B) (r : Wire × Result A) (w' : Wire) (b : B)
    → continue f r ≡ (w', ok b)
    → (w : Wire) × (a : A) × (r ≡ (w, ok a)) × (f a w ≡ (w', ok b))
continue-eq-ok f (w, ok a) w' b e = (w, a, refl, e)
continue-eq-ok f (w, err x) w' b e = absurd (ground arith)

pub >>=-eq-ok :
    {A B : Type 0} (m : M A) (f : A → M B) (w w' : Wire) (b : B)
    → (m >>= f) w ≡ (w', ok b)
    → (w1 : Wire) × (a : A) × (m w ≡ (w1, ok a)) × (f a w1 ≡ (w', ok b))
>>=-eq-ok m f w = continue-eq-ok f (m w)

pub write_all-ok :
    (bytes : Bytes) (w w' : Wire)
    → write_all bytes w ≡ (w', ok tt)
    → (w'.sent ≡ w.sent ++ bytes) × (w'.incoming ≡ w.incoming)
write_all-ok bytes w w' e = elim (write_all-Written bytes w) [
  | all_sent ws p ↦ ground arith
  | part_sent part missing ws x split p ↦ absurd (ground arith)
]

pub read_full-ok :
    (n : ℕ) (w w' : Wire) (bytes : Bytes)
    → read_full n w ≡ (w', ok bytes)
    → (w'.sent ≡ w.sent) × (w.incoming ≡ bytes ++ w'.incoming) × (length bytes ≡ n)
read_full-ok n w w' bytes e = elim (read_full-ReadResult n w) [
  | got bs rest size split p ↦ ground arith
  | cut_short p ↦ absurd (ground arith)
]

pub fail_if-ok :
    (test : Bool) (x : Error) (w w' : Wire)
    → fail_if test x w ≡ (w', ok tt)
    → (test ≡ false) × (w ≡ w')
fail_if-ok true x w w' e = absurd (ground arith)
fail_if-ok false x w w' e = (refl, ground arith)

pub lift-ok :
    {A : Type 0} (r : Result A) (w w' : Wire) (a : A)
    → lift r w ≡ (w', ok a)
    → (w ≡ w') × (r ≡ ok a)
lift-ok (ok b) w w' a e = (ap (λ t. t.0) e, ap (λ t. t.1) e)
lift-ok (err x) w w' a e = absurd (ground arith)
