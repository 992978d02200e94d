-- ===== src/Serve/Sound.antt =====
-- internal/proxy/server.go: a balancer over as many upstreams as the server has, and what the
-- components do to it.
use go_proxy_mux.Prelude.{
  [], ◌∷◌, ℕ, zero, suc, ◌<◌, ◌≡◌, ap, ◌∙◌, subst, List, Option, none, some, arith, length,
  get_elem?, All,
}
use go_proxy_mux.Prelude.Int.{ℤ}
use go_proxy_mux.Balancer.{Balancer, Selection, IsValid, next, mark_failure, mark_success}
use go_proxy_mux.Balancer.Health.{
  nexts, fails, succeeds, step, step-IsValid, upstreams-mark_failure, upstreams-mark_success,
}
use go_proxy_mux.Balancer.Select.{Chosen, next-Chosen}

-- A valid balancer of `n` upstreams.
pub record Sound (n : ℕ) (b : Balancer) : Type 0 where
  pub valid : IsValid b
  pub size : length b.upstreams ≡ n

-- What is chosen is an index of one of them.
abbrev pub ChosenBelow : ℕ → Option Selection → Type 0
ChosenBelow n none = Unit
ChosenBelow n (some s) = s.index < n

-- Draws of the random source are below their bound.
abbrev pub IsBounded : (ℕ → ℕ) → Type 0
IsBounded draw = (n : ℕ) → 0 < n → draw n < n

below-get_elem? :
    {A : Type 0} (xs : List A) (i : ℕ) (x : A) → get_elem? xs i ≡ some x → i < length xs
below-get_elem? [] i x e = absurd (ground arith)
below-get_elem? (y ∷ xs) zero x e = omega arith
below-get_elem? (y ∷ xs) (suc i) x e = omega (arith, below-get_elem? xs i x e)

Chosen-Sound :
    (n : ℕ) (b : Balancer) (exclude now : ℤ) (found : Balancer × Option Selection)
    → length b.upstreams ≡ n
    → IsValid found.0
    → Chosen b exclude now found
    → Sound n found.0 × ChosenBelow n found.1
Chosen-Sound n b exclude now (b', none) size v (same, c) =
    (record { valid = v; size = ap (λ b. length b.upstreams) same ∙ size }, tt)
Chosen-Sound n b exclude now (b', some s) size v (usable, there, same) = (
  record { valid = v; size = ap (λ b. length b.upstreams) same ∙ size },
  subst (λ n. s.index < n) size (below-get_elem? b.upstreams s.index s.upstream there),
)

pub next-Sound :
    (n : ℕ) (b : Balancer) (exclude now : ℤ) (draw : ℕ → ℕ)
    → IsBounded draw
    → Sound n b
    → let (b', found) = next b exclude now draw in Sound n b' × ChosenBelow n found
unfolding step
next-Sound n b exclude now draw bounded v =
    Chosen-Sound n b exclude now (next b exclude now draw) v.size
      (step-IsValid b (nexts exclude now draw) v.valid) (next-Chosen b exclude now draw bounded)

pub mark_failure-Sound :
    (n : ℕ) (b : Balancer) (now i : ℤ) → Sound n b → Sound n (mark_failure b now i)
unfolding step
mark_failure-Sound n b now i v = record {
  valid = step-IsValid b (fails now i) v.valid;
  size = ap length (upstreams-mark_failure b now i) ∙ v.size;
}

pub mark_success-Sound : (n : ℕ) (b : Balancer) (i : ℤ) → Sound n b → Sound n (mark_success b i)
unfolding step
mark_success-Sound n b i v = record {
  valid = step-IsValid b (succeeds i) v.valid;
  size = ap length (upstreams-mark_success b i) ∙ v.size;
}

-- A sound balancer behind a handler that asked only upstreams below `n`.
pub record Kept (n : ℕ) (b : Balancer) (asked : List ℕ) : Type 0 where
  pub sound : Sound n b
  pub within : All (λ i. i < n) asked
