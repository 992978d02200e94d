-- ===== src/Config/Env/Values/Environ.antt =====
-- internal/config/env.go, readEnvValues: what the process environment adds.
use go_proxy_mux.Prelude.{
  ◌≡◌, refl, sym, ap, ◌∙◌, subst, true, Bool-cases, inl, inr, List, [], ◌∷◌, Option, none, some,
  if◌then◌else◌,
}
use go_proxy_mux.Prelude.Bytes.{Bytes, str_eq, str_eq_iff}
use go_proxy_mux.Prelude.Dict.{lookup, lookup-insert, Unique, insert-Unique}
use go_proxy_mux.Net.{cut}
use go_proxy_mux.Config.Env.Settings.{Variables}
use go_proxy_mux.Config.Env.Values.{is_ours, override, add_environ}

-- The last of the assignments to the name, in the process environment.
abbrev pub assigned_by : Bytes → Option (Bytes × Bytes) → Option Bytes
assigned_by name none = none
assigned_by name (some (key, value)) = if str_eq key name then some value else none

abbrev pub or_first : Option Bytes → Option Bytes → Option Bytes
or_first (some v) earlier = some v
or_first none earlier = earlier

unfoldable pub last_assigned : Bytes → List Bytes → Option Bytes
last_assigned name [] = none
last_assigned name (assignment ∷ more) =
    or_first (last_assigned name more) (assigned_by name (cut b'=' assignment))

lookup-override :
    (name : Bytes) (vars : Variables) (m : Option (Bytes × Bytes))
    → is_ours name ≡ true
    → lookup name (override vars m) ≡ or_first (assigned_by name m) (lookup name vars)
lookup-override name vars none ours = refl
lookup-override name vars (some (key, value)) ours = elim (Bool-cases (str_eq key name)) [
  | inl same ↦
      let ours' = subst (λ k. is_ours k ≡ true) (sym ((str_eq_iff key name).0 same)) ours in
      rw (same, ours') (lookup-insert key name value vars ∙ rw same refl)
  | inr other ↦ elim (Bool-cases (is_ours key)) [
    | inl mine ↦ rw (other, mine) (lookup-insert key name value vars ∙ rw other refl)
    | inr foreign ↦ rw (other, foreign) refl
  ]
]

pub or_first_assoc : (a b c : Option Bytes) → or_first a (or_first b c) ≡ or_first (or_first a b) c
or_first_assoc (some v) b c = refl
or_first_assoc none b c = refl

pub lookup-add_environ :
    (name : Bytes) (environ : List Bytes) (vars : Variables)
    → is_ours name ≡ true
    → lookup name (add_environ environ vars)
      ≡ or_first (last_assigned name environ) (lookup name vars)
unfolding add_environ last_assigned
lookup-add_environ name [] vars ours = refl
lookup-add_environ name (assignment ∷ more) vars ours =
    lookup-add_environ name more (override vars (cut b'=' assignment)) ours
    ∙ ap (or_first (last_assigned name more)) (lookup-override name vars (cut b'=' assignment) ours)
    ∙ or_first_assoc (last_assigned name more) (assigned_by name (cut b'=' assignment))
        (lookup name vars)

override-Unique :
    (vars : Variables) (m : Option (Bytes × Bytes)) → Unique vars → Unique (override vars m)
override-Unique vars none u = u
override-Unique vars (some (key, value)) u = elim (Bool-cases (is_ours key)) [
  | inl mine ↦ rw mine (insert-Unique key value vars u)
  | inr foreign ↦ rw foreign u
]

pub add_environ-Unique :
    (environ : List Bytes) (vars : Variables) → Unique vars → Unique (add_environ environ vars)
unfolding add_environ
add_environ-Unique [] vars u = u
add_environ-Unique (assignment ∷ more) vars u =
    add_environ-Unique more _ (override-Unique vars (cut b'=' assignment) u)
