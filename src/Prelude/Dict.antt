-- ===== src/Prelude/Dict.antt =====
-- A Go map with string keys as an association list.
use go_proxy_mux.Prelude.{
  ◌≡◌, refl, subst, ◌∙◌, false, List, [], ◌∷◌, Option, none, some, if◌then◌else◌, arith, suc,
  length, inl, inr, Bool-cases,
}
use go_proxy_mux.Prelude.Bytes.{Bytes, str_eq, str_eq_iff}

module _ {ℓ} {V : Type ℓ} where
  -- `m[k]`, with its presence flag.
  unfoldable pub lookup : Bytes → List (Bytes × V) → Option V
  lookup k [] = none
  lookup k ((j, v) ∷ m) = if str_eq j k then some v else lookup k m

  -- `m[k] = v`
  unfoldable pub insert : Bytes → V → List (Bytes × V) → List (Bytes × V)
  insert k v [] = (k, v) ∷ []
  insert k v ((j, w) ∷ m) = if str_eq j k then (k, v) ∷ m else (j, w) ∷ insert k v m

  -- `delete(m, k)`
  unfoldable pub delete : Bytes → List (Bytes × V) → List (Bytes × V)
  delete k [] = []
  delete k ((j, v) ∷ m) = let rest = delete k m in if str_eq j k then rest else (j, v) ∷ rest

  pub lookup-insert :
      (k j : Bytes) (v : V) (m : List (Bytes × V))
      → lookup j (insert k v m) ≡ (if str_eq k j then some v else lookup j m)
  unfolding lookup insert
  lookup-insert k j v [] = refl
  lookup-insert k j v ((i, w) ∷ m) =
      ground (arith, str_eq_iff k j, str_eq_iff i k, str_eq_iff i j, lookup-insert k j v m)

  pub lookup-delete :
      (k j : Bytes) (m : List (Bytes × V))
      → lookup j (delete k m) ≡ (if str_eq k j then none else lookup j m)
  unfolding lookup delete
  lookup-delete k j [] = ground arith
  lookup-delete k j ((i, w) ∷ m) =
      ground (arith, str_eq_iff k j, str_eq_iff i k, str_eq_iff i j, lookup-delete k j m)

  -- No key twice.
  abbrev pub Unique : List (Bytes × V) → Type ℓ
  Unique [] = Unit
  Unique ((k, v) ∷ m) = (lookup k m ≡ none) × Unique m

  pub insert-Unique : (k : Bytes) (v : V) (m : List (Bytes × V)) → Unique m → Unique (insert k v m)
  unfolding insert lookup
  insert-Unique k v [] u = (refl, tt)
  insert-Unique k v ((j, w) ∷ m) u = elim (Bool-cases (str_eq j k)) [
    | inl same ↦ rw same (subst (λ i. lookup i m ≡ none) ((str_eq_iff j k).0 same) u.0, u.1)
    | inr other ↦
        let apart : str_eq k j ≡ false = ground (arith, str_eq_iff j k, str_eq_iff k j) in
        rw other (lookup-insert k j v m ∙ (rw apart u.0), insert-Unique k v m u.1)
  ]

  pub delete-Unique : (k : Bytes) (m : List (Bytes × V)) → Unique m → Unique (delete k m)
  unfolding delete
  delete-Unique k [] u = u
  delete-Unique k ((j, w) ∷ m) u = elim (Bool-cases (str_eq j k)) [
    | inl same ↦ rw same (delete-Unique k m u.1)
    | inr other ↦
        let apart : str_eq k j ≡ false = ground (arith, str_eq_iff j k, str_eq_iff k j) in
        rw other (lookup-delete k j m ∙ (rw apart u.0), delete-Unique k m u.1)
  ]

  pub length-insert_new :
      (k : Bytes) (v : V) (m : List (Bytes × V))
      → lookup k m ≡ none
      → length (insert k v m) ≡ suc (length m)
  unfolding lookup insert
  length-insert_new k v [] h = refl
  length-insert_new k v ((j, w) ∷ m) h = ground (arith, length-insert_new k v m)

  length-delete_absent :
      (k : Bytes) (m : List (Bytes × V)) → lookup k m ≡ none → length (delete k m) ≡ length m
  unfolding lookup delete
  length-delete_absent k [] h = refl
  length-delete_absent k ((j, w) ∷ m) h = ground (arith, length-delete_absent k m)

  pub length-delete :
      (k : Bytes) (v : V) (m : List (Bytes × V))
      → Unique m
      → lookup k m ≡ some v
      → suc (length (delete k m)) ≡ length m
  unfolding lookup delete
  length-delete k v [] u h = absurd (ground arith)
  length-delete k v ((j, w) ∷ m) u h =
      ground (arith, str_eq_iff j k, length-delete k v m, length-delete_absent k m)
