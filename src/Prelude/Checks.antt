-- ===== src/Prelude/Checks.antt =====
-- A run of Go statements `if test { return error }`.
use go_proxy_mux.Prelude.{
  ◌≡◌, refl, Bool, true, false, List, [], ◌∷◌, Option, none, some, arith, All,
}

-- The error of the first test that holds.
abbrev pub first_fault : {F : Type 0} → List (Bool × F) → Option F
first_fault [] = none
first_fault ((true, f) ∷ checks) = some f
first_fault ((false, f) ∷ checks) = first_fault checks

-- The error of the first part, or what the second comes to.
abbrev pub or_else : {F : Type 0} → Option F → Option F → Option F
or_else none next = next
or_else (some f) next = some f

pub or_else-eq-none : {F : Type 0} (m k : Option F) → or_else m k ≡ none → (m ≡ none) × (k ≡ none)
or_else-eq-none none k e = (refl, e)
or_else-eq-none (some f) k e = absurd (ground arith)

pub first_fault-eq-none :
    {F : Type 0} (checks : List (Bool × F))
    → first_fault checks ≡ none
    → All (λ check. check.0 ≡ false) checks
first_fault-eq-none [] e = tt
first_fault-eq-none ((true, f) ∷ checks) e = absurd (ground arith)
first_fault-eq-none ((false, f) ∷ checks) e = (refl, first_fault-eq-none checks e)
