-- ===== src/Config/Env/Values/Lines.antt =====
-- internal/config/env.go, readEnvValues: what the lines of the file assign.
use go_proxy_mux.Prelude.{
  ℕ, suc, ◌≡◌, refl, sym, ap, ◌∙◌, subst, true, false, ◌||◌, Bool-cases, inl, inr, List, [], ◌∷◌,
  Option, none, some, if◌then◌else◌, arith,
}
use go_proxy_mux.Prelude.Bytes.{Bytes, codes, str_eq, str_eq_iff}
use go_proxy_mux.Prelude.Dict.{lookup, insert, lookup-insert, Unique, insert-Unique}
use go_proxy_mux.Net.{cut}
use go_proxy_mux.Config.Env.Settings.{Variables, unreadable_file, applied, faulty}
use go_proxy_mux.Config.Env.Folded.{bind-eq-applied, applied_injective}
use go_proxy_mux.Config.Env.{has_prefix}
use go_proxy_mux.Config.Env.Values.{
  EnvFile, opened, no_path, missing, unreadable, is_ours, add_new, assign, read_line, read_lines,
  read_file, trim_return, valid_env_name,
}
use go_proxy_mux.Config.Env.Values.Environ.{or_first, or_first_assoc}

or_first-none : (a : Option Bytes) → or_first a none ≡ a
or_first-none none = refl
or_first-none (some v) = refl

-- What a line of the file assigns to the name.
abbrev pub assigned_in : (Bytes → Bytes) → Bytes → Option (Bytes × Bytes) → Option Bytes
assigned_in trim name none = none
assigned_in trim name (some (key, value)) = if str_eq (trim key) name then some value else none

abbrev pub line_assigns : (Bytes → Bytes) → Bytes → Bytes → Option Bytes
line_assigns trim name text =
    let line = trim_return text in
    if str_eq (trim line) [] || has_prefix (trim line) (codes "#")
    then none
    else assigned_in trim name (cut b'=' line)

unfoldable pub first_assigned : (Bytes → Bytes) → Bytes → List Bytes → Option Bytes
first_assigned trim name [] = none
first_assigned trim name (text ∷ lines) =
    or_first (line_assigns trim name text) (first_assigned trim name lines)

entry_of_new :
    (key name value : Bytes) (vars : Variables)
    → lookup key vars ≡ none
    → (if str_eq key name then some value else lookup name vars)
      ≡ or_first (lookup name vars) (if str_eq key name then some value else none)
entry_of_new key name value vars q = elim (Bool-cases (str_eq key name)) [
  | inl same ↦
      let absent = subst (λ k. lookup k vars ≡ none) ((str_eq_iff key name).0 same) q in
      rw (same, absent) refl
  | inr other ↦ rw other (sym (or_first-none (lookup name vars)))
]

pub has_own : is_ours (codes "MUX_") ≡ true
unfolding has_prefix
has_own = refl

-- What a line adds to the variables.
pub record Added (name : Bytes) (found : Option Bytes) (vars vars' : Variables) : Type 0 where
  pub entry : lookup name vars' ≡ or_first (lookup name vars) found
  pub unique : Unique vars → Unique vars'

module _ (trim : Bytes → Bytes) (name : Bytes) (ours : is_ours name ≡ true) where
  unchanged : (vars vars' : Variables) → applied vars ≡ applied vars' → Added name none vars vars'
  unchanged vars vars' e =
      let same = applied_injective vars vars' e in
      subst (Added name none vars) (sym same)
        (record { entry = sym (or_first-none (lookup name vars)); unique = λ u. u })

  not_ours : (key : Bytes) → is_ours key ≡ false → str_eq key name ≡ false
  not_ours key foreign = elim (Bool-cases (str_eq key name)) [
    | inl same ↦
        let ours' = subst (λ k. is_ours k ≡ true) (sym ((str_eq_iff key name).0 same)) ours in
        absurd (ground arith)
    | inr apart ↦ apart
  ]

  add_new-Added :
      (key value : Bytes) (vars vars' : Variables) (m : Option Bytes)
      → lookup key vars ≡ m
      → add_new vars key value m ≡ applied vars'
      → Added name (if str_eq key name then some value else none) vars vars'
  add_new-Added key value vars vars' (some old) q e = absurd (ground arith)
  add_new-Added key value vars vars' none q e =
      let same = applied_injective (insert key value vars) vars' e in
      subst (Added name (if str_eq key name then some value else none) vars) (sym same) (record {
        entry = lookup-insert key name value vars ∙ entry_of_new key name value vars q;
        unique = insert-Unique key value vars;
      })

  assign-Added :
      (n : ℕ) (vars vars' : Variables) (m : Option (Bytes × Bytes))
      → assign trim n vars m ≡ applied vars'
      → Added name (assigned_in trim name m) vars vars'
  assign-Added n vars vars' none e = absurd (ground arith)
  assign-Added n vars vars' (some (key, value)) e = elim (Bool-cases (valid_env_name (trim key))) [
    | inr invalid ↦ let e' = rw invalid at e in absurd (ground arith)
    | inl valid ↦ elim (Bool-cases (is_ours (trim key))) [
      | inl mine ↦
          add_new-Added (trim key) value vars vars' (lookup (trim key) vars) refl
            (rw (valid, mine) at e)
      | inr foreign ↦
          let apart : str_eq (trim key) name ≡ false = not_ours (trim key) foreign in
          rw apart (unchanged vars vars' (rw (valid, foreign) at e))
    ]
  ]

  read_line-Added :
      (n : ℕ) (vars vars' : Variables) (text : Bytes)
      → read_line trim n vars text ≡ applied vars'
      → Added name (line_assigns trim name text) vars vars'
  unfolding read_line
  read_line-Added n vars vars' text e =
      let line = trim_return text in
      elim (Bool-cases (str_eq (trim line) [] || has_prefix (trim line) (codes "#"))) [
        | inl blank ↦ rw blank (unchanged vars vars' (rw blank at e))
        | inr there ↦ rw there (assign-Added n vars vars' (cut b'=' line) (rw there at e))
      ]

  read_lines-Added :
      (n : ℕ) (lines : List Bytes) (vars vars' : Variables)
      → read_lines trim n lines vars ≡ applied vars'
      → Added name (first_assigned trim name lines) vars vars'
  unfolding read_lines first_assigned
  read_lines-Added n [] vars vars' e = unchanged vars vars' e
  read_lines-Added n (text ∷ lines) vars vars' e =
      let (mid, first, rest) =
        bind-eq-applied (read_line trim n vars text) (read_lines trim (suc n) lines) vars' e in
      let here = read_line-Added n vars mid text first in
      let more = read_lines-Added (suc n) lines mid vars' rest in
      record {
        entry =
            more.entry
            ∙ ap (λ t. or_first t (first_assigned trim name lines)) here.entry
            ∙ sym (
                or_first_assoc (lookup name vars) (line_assigns trim name text)
                  (first_assigned trim name lines));
        unique = λ u. more.unique (here.unique u);
      }

abbrev pub lines_of : EnvFile → List Bytes
lines_of no_path = []
lines_of missing = []
lines_of unreadable = []
lines_of (opened lines fails) = lines

pub read_file-Added :
    (trim : Bytes → Bytes) (name : Bytes) (file : EnvFile) (vars : Variables)
    → is_ours name ≡ true
    → read_file trim file ≡ applied vars
    → Added name (first_assigned trim name (lines_of file)) [] vars
unfolding read_file first_assigned
read_file-Added trim name no_path vars ours e = unchanged trim name ours [] vars e
read_file-Added trim name missing vars ours e = unchanged trim name ours [] vars e
read_file-Added trim name unreadable vars ours e = absurd (ground arith)
read_file-Added trim name (opened lines fails) vars ours e =
    let (mid, first, last) =
      bind-eq-applied (read_lines trim 1 lines [])
        (λ v. if fails then faulty unreadable_file else applied v) vars e in
    elim (Bool-cases fails) [
      | inl broken ↦ let e' = rw broken at last in absurd (ground arith)
      | inr whole ↦
          subst (Added name (first_assigned trim name lines) [])
            (sym (applied_injective mid vars (rw whole at last)))
            (read_lines-Added trim name ours 1 lines [] mid first)
    ]
