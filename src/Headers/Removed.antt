-- ===== src/Headers/Removed.antt =====
-- internal/proxy/headers.go: which fields removeHopHeaders leaves.
use go_proxy_mux.Prelude.{
  ◌≡◌, refl, sym, ap, ◌∙◌, Bool, true, false, not, ◌&&◌, ◌||◌, ◌==◌, Bool-cases, inl, inr, List, [],
  ◌∷◌, ◌++◌, Option, none, some, arith, if◌then◌else◌,
}
use mathlib.Core.List.{append_assoc, append-nil}
use go_proxy_mux.Prelude.Bytes.{Bytes, codes, str_eq}
use go_proxy_mux.Prelude.Dict.{lookup, delete}
use go_proxy_mux.Headers.{
  Header, hop_headers, values, or_empty, split_on, delete_tokens, delete_values, delete_named,
  delete_all, remove_hop_headers,
}
use go_proxy_mux.Headers.Fields.{
  pieces, is_token, is_named, named_in, is_named_by, is_hop, is_dropped, without, without-none,
  without-eq, without-without, without-delete, lookup-without,
}

or_assoc : (a b c : Bool) → ((a || b) || c) ≡ (a || b || c)
or_assoc a b c = ground arith

-- The parts are never none.
split_on-cons :
    (s : Bytes) → (part : Bytes) × (parts : List Bytes) × (split_on b',' s ≡ part ∷ parts)
unfolding split_on
split_on-cons [] = ([], [], refl)
split_on-cons (b ∷ s) =
    let (part, parts, e) = split_on-cons s in
    elim (Bool-cases (b == b',')) [
      | inl comma ↦ ([], part ∷ parts, rw (comma, e) refl)
      | inr other ↦ (b ∷ part, parts, rw (other, e) refl)
    ]

pieces-split_on :
    (piece s part : Bytes) (parts : List Bytes)
    → split_on b',' s ≡ part ∷ parts
    → pieces piece s ≡ (piece ++ part) ∷ parts
unfolding pieces split_on
pieces-split_on piece [] part parts e =
    let last : [] ≡ part = ground arith in
    let none_more : [] ≡ parts = ground arith in
    ap (λ t. t ∷ []) (sym (append-nil piece) ∙ ap (λ t. piece ++ t) last)
    ∙ ap (λ t. (piece ++ part) ∷ t) none_more
pieces-split_on piece (b ∷ s) part parts e =
    let (p, ps, q) = split_on-cons s in
    elim (Bool-cases (b == b',')) [
      | inl comma ↦
          let e' = rw (comma, q) at e in
          let first : [] ≡ part = ground arith in
          let rest : p ∷ ps ≡ parts = ground arith in
          rw comma (
            ap (λ t. piece ∷ t) (pieces-split_on [] s p ps q ∙ rest)
            ∙ ap (λ t. t ∷ parts) (sym (append-nil piece) ∙ ap (λ t. piece ++ t) first))
      | inr other ↦
          let e' = rw (other, q) at e in
          let first : b ∷ p ≡ part = ground arith in
          let rest : ps ≡ parts = ground arith in
          rw other (
            pieces-split_on (piece ++ b ∷ []) s p ps q
            ∙ ap (λ t. t ∷ ps) (append_assoc piece (b ∷ []) p ∙ ap (λ t. piece ++ t) first)
            ∙ ap (λ t. (piece ++ part) ∷ t) rest)
    ]

without-delete_if :
    (test : Bool) (key : Bytes) (h : Header)
    → (if test then h else delete key h)
      ≡ without (λ name. if test then false else str_eq key name) h
without-delete_if true key h = sym (without-none h)
without-delete_if false key h = without-delete key h

module _ (canonical trim : Bytes → Bytes) where
  delete_tokens-without :
      (tokens : List Bytes) (h : Header)
      → delete_tokens canonical trim tokens h ≡ without (is_token canonical trim tokens) h
  unfolding delete_tokens is_token
  delete_tokens-without [] h = sym (without-none h)
  delete_tokens-without (token ∷ tokens) h =
      delete_tokens-without tokens
        (if str_eq (trim token) [] then h else delete (canonical (trim token)) h)
      ∙ ap (without (is_token canonical trim tokens))
          (without-delete_if (str_eq (trim token) []) (canonical (trim token)) h)
      ∙ without-without
          (λ name. if str_eq (trim token) [] then false else str_eq (canonical (trim token)) name)
          (is_token canonical trim tokens) h

  split_on-pieces : (value : Bytes) → split_on b',' value ≡ pieces [] value
  split_on-pieces value =
      let (part, parts, e) = split_on-cons value in e ∙ sym (pieces-split_on [] value part parts e)

  delete_values-without :
      (vs : List Bytes) (h : Header)
      → delete_values canonical trim vs h ≡ without (is_named canonical trim vs) h
  unfolding delete_values is_named
  delete_values-without [] h = sym (without-none h)
  delete_values-without (value ∷ vs) h =
      delete_values-without vs (delete_tokens canonical trim (split_on b',' value) h)
      ∙ ap (without (is_named canonical trim vs)) (
          delete_tokens-without (split_on b',' value) h
          ∙ ap (λ tokens. without (is_token canonical trim tokens) h) (split_on-pieces value))
      ∙ without-without (is_token canonical trim (pieces [] value)) (is_named canonical trim vs) h

  delete_named-without :
      (by : Bytes) (h : Header)
      → delete_named canonical trim by h ≡ without (is_named_by canonical trim by h) h
  unfolding delete_named values delete_values
  delete_named-without by h = of_values (lookup (canonical by) h)
    where
      of_values :
          (m : Option (List Bytes))
          → delete_values canonical trim (or_empty m) h ≡ without (named_in canonical trim m) h
      of_values none = sym (without-none h)
      of_values (some vs) = delete_values-without vs h

  -- Whether one of the canonical names is the name.
  abbrev is_one_of : List Bytes → Bytes → Bool
  is_one_of [] name = false
  is_one_of (n ∷ names) name = str_eq (canonical n) name || is_one_of names name

  delete_all-without :
      (names : List Bytes) (h : Header) → delete_all canonical names h ≡ without (is_one_of names) h
  unfolding delete_all
  delete_all-without [] h = sym (without-none h)
  delete_all-without (n ∷ names) h =
      delete_all-without names (delete (canonical n) h)
      ∙ ap (without (is_one_of names)) (without-delete (canonical n) h)
      ∙ without-without (str_eq (canonical n)) (is_one_of names) h

  is_one_of_hop : (name : Bytes) → is_one_of hop_headers name ≡ is_hop canonical name
  unfolding is_hop
  is_one_of_hop name = ground arith

  -- What Proxy-Connection names once the fields that Connection names are gone.
  named_later :
      (f : Bytes → Bool) (h : Header) (name : Bytes)
      → is_named_by canonical trim (codes "Proxy-Connection") (without f h) name ≡ (
          not (f (canonical (codes "Proxy-Connection")))
          && is_named_by canonical trim (codes "Proxy-Connection") h name)
  named_later f h name =
      ap (λ m. named_in canonical trim m name)
        (lookup-without f (canonical (codes "Proxy-Connection")) h)
      ∙ cases (f (canonical (codes "Proxy-Connection")))
    where
      cases :
          (test : Bool)
          → named_in canonical trim
              (if test then none else lookup (canonical (codes "Proxy-Connection")) h)
              name
            ≡ (not test && is_named_by canonical trim (codes "Proxy-Connection") h name)
      cases true = refl
      cases false = refl

  -- removeHopHeaders leaves, in their order and with their values, exactly the fields but these:
  -- those that the tokens of Connection name, those that the tokens of Proxy-Connection name unless
  -- Connection names that field itself, and Connection, Keep-Alive, Proxy-Authenticate,
  -- Proxy-Authorization, Proxy-Connection, TE, Trailer, Transfer-Encoding and Upgrade. Tokens are
  -- the pieces between commas, trimmed; a blank one names nothing.
  pub remove_hop_headers-without :
      (h : Header) → remove_hop_headers canonical trim h ≡ without (is_dropped canonical trim h) h
  unfolding remove_hop_headers is_dropped
  remove_hop_headers-without h =
      let first = is_named_by canonical trim (codes "Connection") h in
      let h1 = without first h in
      let second = is_named_by canonical trim (codes "Proxy-Connection") h1 in
      let later : Bytes → Bool = λ name.
        not (first (canonical (codes "Proxy-Connection")))
        && is_named_by canonical trim (codes "Proxy-Connection") h name in
      ap
        (λ t.
          delete_all canonical hop_headers
            (delete_named canonical trim (codes "Proxy-Connection") t))
        (delete_named-without (codes "Connection") h)
      ∙ ap (delete_all canonical hop_headers) (delete_named-without (codes "Proxy-Connection") h1)
      ∙ delete_all-without hop_headers (without second h1)
      ∙ ap (without (is_one_of hop_headers)) (without-without first second h)
      ∙ without-without (λ name. first name || second name) (is_one_of hop_headers) h
      ∙ without-eq _ (is_dropped canonical trim h) h (λ name.
        ap (λ t. (first name || t) || is_one_of hop_headers name) (named_later first h name)
        ∙ ap (λ t. (first name || later name) || t) (is_one_of_hop name)
        ∙ or_assoc (first name) (later name) (is_hop canonical name))
