-- ===== src/AuthLimit/Agrees.antt =====
-- internal/proxy/auth_limit.go: the map byIP and the list oldestFirst hold the same addresses.
use go_proxy_mux.Prelude.{
  ◌≡◌, refl, ◌∙◌, List, [], ◌∷◌, ◌++◌, Option, none, some, arith, length, length-append,
}
use go_proxy_mux.Prelude.Bytes.{Bytes, str_eq_iff}
use go_proxy_mux.Prelude.Dict.{
  lookup, insert, delete, lookup-insert, lookup-delete, Unique, insert-Unique, delete-Unique,
  length-insert_new, length-delete,
}
use go_proxy_mux.AuthLimit.{AuthFailure, find, remove}
use go_proxy_mux.AuthLimit.Table.{
  Distinct, find-remove, find-snoc, remove-Distinct, snoc-Distinct, length-remove,
}

-- The element that the map has for an address with this entry.
abbrev pub handle : Bytes → Option AuthFailure → Option Bytes
handle k none = none
handle k (some e) = some k

pub record Agrees (by_ip : List (Bytes × Bytes)) (es : List AuthFailure) : Type 0 where
  pub distinct : Distinct es
  pub unique : Unique by_ip
  pub agree : (k : Bytes) → lookup k by_ip ≡ handle k (find k es)
  pub sized : length by_ip ≡ length es

pub Agrees-nil : Agrees [] []
unfolding lookup find
Agrees-nil = record { distinct = tt; unique = tt; agree = λ k. refl; sized = refl }

module _ (by_ip : List (Bytes × Bytes)) (es : List AuthFailure) (a : Agrees by_ip es) where
  pub Agrees-remove :
      (ip : Bytes) (e : AuthFailure) → find ip es ≡ some e → Agrees (delete ip by_ip) (remove ip es)
  Agrees-remove ip e p = record {
    distinct = remove-Distinct ip es a.distinct;
    unique = delete-Unique ip by_ip a.unique;
    agree =
        λ k. ground (arith, lookup-delete ip k by_ip, find-remove ip k es a.distinct, a.agree k);
    sized = omega (
      arith,
      length-remove ip es e p,
      length-delete ip ip by_ip a.unique (rw p at (a.agree ip)),
      a.sized,
    );
  }

  pub Agrees-insert :
      (e : AuthFailure) → find e.ip es ≡ none → Agrees (insert e.ip e.ip by_ip) (es ++ e ∷ [])
  Agrees-insert e p = record {
    distinct = snoc-Distinct es e p a.distinct;
    unique = insert-Unique e.ip e.ip by_ip a.unique;
    agree = λ k.
        ground
          (arith, lookup-insert e.ip k e.ip by_ip, find-snoc k es e, a.agree k, str_eq_iff e.ip k);
    sized = omega (
      arith,
      length-insert_new e.ip e.ip by_ip (rw p at (a.agree e.ip)),
      length-append es (e ∷ []),
      a.sized,
    );
  }

  pub Agrees-move :
      (e e' : AuthFailure) → find e'.ip es ≡ some e → Agrees by_ip (remove e'.ip es ++ e' ∷ [])
  Agrees-move e e' p = record {
    distinct =
        snoc-Distinct (remove e'.ip es) e'
          (find-remove e'.ip e'.ip es a.distinct ∙ (rw ((str_eq_iff e'.ip e'.ip).1 refl)))
          (remove-Distinct e'.ip es a.distinct);
    unique = a.unique;
    agree = λ k. ground (
      arith,
      find-snoc k (remove e'.ip es) e',
      find-remove e'.ip k es a.distinct,
      a.agree k,
      str_eq_iff e'.ip k,
    );
    sized =
        omega
          (arith, length-remove e'.ip es e p, length-append (remove e'.ip es) (e' ∷ []), a.sized);
  }
