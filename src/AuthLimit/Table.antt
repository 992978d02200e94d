-- ===== src/AuthLimit/Table.antt =====
-- internal/proxy/auth_limit.go: the list of entries, oldest first, in which no address stands twice.
use go_proxy_mux.Prelude.{
  suc, ◌≡◌, refl, ◌∙◌, inl, inr, false, Bool-cases, List, [], ◌∷◌, ◌++◌, none, some, arith, length,
  if◌then◌else◌,
}
use go_proxy_mux.Prelude.Bytes.{Bytes, str_eq, str_eq_iff}
use go_proxy_mux.AuthLimit.{AuthFailure, find, remove, replace}

abbrev pub Distinct : List AuthFailure → Type 0
Distinct [] = Unit
Distinct (e ∷ es) = (find e.ip es ≡ none) × Distinct es

pub find-ip : (h : Bytes) (es : List AuthFailure) (e : AuthFailure) → find h es ≡ some e → e.ip ≡ h
unfolding find
find-ip h [] e p = absurd (ground arith)
find-ip h (x ∷ es) e p = ground (arith, str_eq_iff x.ip h, find-ip h es e)

pub find-remove :
    (h k : Bytes) (es : List AuthFailure)
    → Distinct es
    → find k (remove h es) ≡ (if str_eq h k then none else find k es)
unfolding find remove
find-remove h k [] d = ground arith
find-remove h k (x ∷ es) d =
    ground (arith, str_eq_iff x.ip h, str_eq_iff h k, str_eq_iff x.ip k, find-remove h k es)

pub find-snoc :
    (k : Bytes) (es : List AuthFailure) (e : AuthFailure)
    → find k (es ++ e ∷ [])
      ≡ (elim (find k es) [ none ↦ if str_eq e.ip k then some e else none | some x ↦ some x ])
unfolding find
find-snoc k [] e = refl
find-snoc k (x ∷ es) e = ground (arith, find-snoc k es e)

pub remove-Distinct : (h : Bytes) (es : List AuthFailure) → Distinct es → Distinct (remove h es)
unfolding remove
remove-Distinct h [] d = d
remove-Distinct h (x ∷ es) d = elim (Bool-cases (str_eq x.ip h)) [
  | inl same ↦ rw same d.1
  | inr other ↦
      let apart : str_eq h x.ip ≡ false = ground (arith, str_eq_iff x.ip h, str_eq_iff h x.ip) in
      rw other (find-remove h x.ip es d.1 ∙ (rw apart d.0), remove-Distinct h es d.1)
]

pub snoc-Distinct :
    (es : List AuthFailure) (e : AuthFailure)
    → find e.ip es ≡ none
    → Distinct es
    → Distinct (es ++ e ∷ [])
unfolding find
snoc-Distinct [] e p d = (refl, tt)
snoc-Distinct (x ∷ es) e p d = (
  ground (arith, find-snoc x.ip es e, str_eq_iff x.ip e.ip, str_eq_iff e.ip x.ip),
  snoc-Distinct es e (ground arith) d.1,
)

-- At the back of a list that has not its address, an entry is found by a removal and by a write.
pub remove-snoc :
    (h : Bytes) (es : List AuthFailure) (e : AuthFailure)
    → find h es ≡ none
    → e.ip ≡ h
    → remove h (es ++ e ∷ []) ≡ es
unfolding find remove
remove-snoc h [] e p same = ground (arith, str_eq_iff e.ip h)
remove-snoc h (x ∷ es) e p same = ground (arith, remove-snoc h es e)

pub replace-snoc :
    (es : List AuthFailure) (e e' : AuthFailure)
    → find e'.ip es ≡ none
    → e.ip ≡ e'.ip
    → replace e' (es ++ e ∷ []) ≡ es ++ e' ∷ []
unfolding find replace
replace-snoc [] e e' p same = ground (arith, str_eq_iff e.ip e'.ip)
replace-snoc (x ∷ es) e e' p same = ground (arith, replace-snoc es e e')

pub length-remove :
    (h : Bytes) (es : List AuthFailure) (e : AuthFailure)
    → find h es ≡ some e
    → suc (length (remove h es)) ≡ length es
unfolding find remove
length-remove h [] e p = absurd (ground arith)
length-remove h (x ∷ es) e p = ground (arith, length-remove h es e)

pub remove_absent : (h : Bytes) (es : List AuthFailure) → find h es ≡ none → remove h es ≡ es
unfolding find remove
remove_absent h [] p = refl
remove_absent h (x ∷ es) p = ground (arith, remove_absent h es)
