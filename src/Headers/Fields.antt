-- ===== src/Headers/Fields.antt =====
-- internal/proxy/headers.go: the fields that concern one connection, said without the code's
-- loops, and what is left of a header without them.
use go_proxy_mux.Prelude.{
  ◌≡◌, refl, ap, Bool, false, not, ◌&&◌, ◌||◌, ◌==◌, Bool-cases, inl, inr, List, [], ◌∷◌, ◌++◌,
  Option, none, some, arith, if◌then◌else◌,
}
use go_proxy_mux.Prelude.Bytes.{Bytes, codes, str_eq, str_eq_iff}
use go_proxy_mux.Prelude.Dict.{lookup, delete}
use go_proxy_mux.Headers.{Header, values}

-- A piece of a value up to a comma or the end, where `piece` has been read of the first.
unfoldable pub pieces : Bytes → Bytes → List Bytes
pieces piece [] = piece ∷ []
pieces piece (b ∷ bs) =
    let more = pieces [] bs in
    let longer = pieces (piece ++ b ∷ []) bs in if b == b',' then piece ∷ more else longer

-- The nine fields that concern one connection.
unfoldable pub is_hop : (Bytes → Bytes) → Bytes → Bool
is_hop canonical name =
    str_eq (canonical (codes "Upgrade")) name
    || str_eq (canonical (codes "Transfer-Encoding")) name
    || str_eq (canonical (codes "Trailer")) name
    || str_eq (canonical (codes "TE")) name
    || str_eq (canonical (codes "Proxy-Connection")) name
    || str_eq (canonical (codes "Proxy-Authorization")) name
    || str_eq (canonical (codes "Proxy-Authenticate")) name
    || str_eq (canonical (codes "Keep-Alive")) name
    || str_eq (canonical (codes "Connection")) name

module _ (canonical trim : Bytes → Bytes) where
  -- Whether one of the tokens is the name; a token that is blank is none.
  unfoldable pub is_token : List Bytes → Bytes → Bool
  is_token [] name = false
  is_token (token ∷ tokens) name =
      (if str_eq (trim token) [] then false else str_eq (canonical (trim token)) name)
      || is_token tokens name

  -- Whether one of the values names the field among its tokens.
  unfoldable pub is_named : List Bytes → Bytes → Bool
  is_named [] name = false
  is_named (value ∷ vs) name = is_token (pieces [] value) name || is_named vs name

  -- Whether the field `by` names the field, if it is there.
  abbrev pub named_in : Option (List Bytes) → Bytes → Bool
  named_in none name = false
  named_in (some vs) name = is_named vs name

  abbrev pub is_named_by : Bytes → Header → Bytes → Bool
  is_named_by by h name = named_in (lookup (canonical by) h) name

  -- Proxy-Connection names nothing where Connection names it.
  unfoldable pub is_dropped : Header → Bytes → Bool
  is_dropped h name =
      is_named_by (codes "Connection") h name
      || (not (is_named_by (codes "Connection") h (canonical (codes "Proxy-Connection")))
          && is_named_by (codes "Proxy-Connection") h name)
      || is_hop canonical name

-- The fields that do not pass the test are left, in their order.
unfoldable pub without : (Bytes → Bool) → Header → Header
without test [] = []
without test ((name, values) ∷ h) =
    let rest = without test h in if test name then rest else (name, values) ∷ rest

pub without-none : (h : Header) → without (λ name. false) h ≡ h
unfolding without
without-none [] = refl
without-none ((name, vs) ∷ h) = ap (λ t. (name, vs) ∷ t) (without-none h)

pub without-eq :
    (f g : Bytes → Bool) (h : Header)
    → ((name : Bytes) → f name ≡ g name)
    → without f h ≡ without g h
unfolding without
without-eq f g [] e = refl
without-eq f g ((name, vs) ∷ h) e = rw (e name, without-eq f g h e) refl

pub without-without :
    (f g : Bytes → Bool) (h : Header)
    → without g (without f h) ≡ without (λ name. f name || g name) h
unfolding without
without-without f g [] = refl
without-without f g ((name, vs) ∷ h) = ground (arith, without-without f g h)

str_eq_sym : (a b : Bytes) → str_eq a b ≡ str_eq b a
str_eq_sym a b = ground (arith, str_eq_iff a b, str_eq_iff b a)

pub without-delete : (key : Bytes) (h : Header) → delete key h ≡ without (str_eq key) h
unfolding delete without
without-delete key [] = refl
without-delete key ((j, vs) ∷ h) = rw (str_eq_sym j key, without-delete key h) refl

pub lookup-without :
    (test : Bytes → Bool) (name : Bytes) (h : Header)
    → lookup name (without test h) ≡ (if test name then none else lookup name h)
unfolding lookup without
lookup-without test name [] = ground arith
lookup-without test name ((j, vs) ∷ h) = elim (Bool-cases (str_eq j name)) [
  | inl same ↦
      let here = (str_eq_iff j name).0 same in
      let tests = ap test here in ground (arith, lookup-without test name h)
  | inr other ↦ ground (arith, lookup-without test name h)
]
