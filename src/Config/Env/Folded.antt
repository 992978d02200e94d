-- ===== src/Config/Env/Folded.antt =====
-- internal/config/env.go: what applying a table of settings comes to.
use go_proxy_mux.Prelude.{◌≡◌, refl, sym, ap, ◌∙◌, List, [], ◌∷◌, Option, none, some, All, arith}
use go_proxy_mux.Prelude.Bytes.{Bytes}
use go_proxy_mux.Prelude.Dict.{lookup}
use go_proxy_mux.Config.Env.Settings.{
  Variables, EnvFault, Applied, applied, faulty, ◌>>=◌, Setting, parsed, apply_text, apply_settings,
}

pub bind-eq-applied :
    {A B : Type 0} (m : Applied A) (f : A → Applied B) (b : B)
    → (m >>= f) ≡ applied b
    → (a : A) × (m ≡ applied a) × (f a ≡ applied b)
bind-eq-applied (applied a) f b e = (a, refl, e)
bind-eq-applied (faulty fault) f b e = absurd (ground arith)

abbrev result_or : {A : Type 0} → A → Applied A → A
result_or d (applied a) = a
result_or d (faulty fault) = d

pub applied_injective : {A : Type 0} (a b : A) → applied a ≡ applied b → b ≡ a
applied_injective a b e = sym (ap (result_or a) e)

-- What a variable's text stands for, if it is there and can be read.
abbrev pub or_default : {A : Type 0} → A → Option A → A
or_default d none = d
or_default d (some v) = v

abbrev pub read_or : {A : Type 0} → (Bytes → Option A) → A → Option Bytes → A
read_or parse d none = d
read_or parse d (some text) = or_default d (parse text)

-- A text that is there can be read.
abbrev pub Reads : {A : Type 0} → (Bytes → Option A) → Option Bytes → Type 0
Reads parse none = Unit
Reads {A} parse (some text) = (v : A) × (parse text ≡ some v)

abbrev pub folded : {C A : Type 0} → (Bytes → Option A) → Variables → List (Setting C A) → C → C
folded parse vars [] c = c
folded parse vars (s ∷ ss) c =
    folded parse vars ss (s.set (read_or parse (s.get c) (lookup s.name vars)) c)

-- To set a field to what it is changes nothing.
abbrev pub Lawful : {C A : Type 0} → List (Setting C A) → Type 0
Lawful {C} ss = All (λ s. (c : C) → s.set (s.get c) c ≡ c) ss

abbrev pub AllRead : {C A : Type 0} → (Bytes → Option A) → Variables → List (Setting C A) → Type 0
AllRead parse vars ss = All (λ s. Reads parse (lookup s.name vars)) ss

module _ {C A : Type 0} (parse : Bytes → Option A) (fault : Bytes → EnvFault)
    (vars : Variables) where
  parsed-eq-applied :
      (s : Setting C A) (f : EnvFault) (c c' : C) (m : Option A)
      → parsed s f c m ≡ applied c'
      → (v : A) × (m ≡ some v) × (c' ≡ s.set (or_default (s.get c) m) c)
  parsed-eq-applied s f c c' none e = absurd (ground arith)
  parsed-eq-applied s f c c' (some v) e = (v, refl, applied_injective (s.set v c) c' e)

  apply_text-eq-applied :
      (s : Setting C A) (c c' : C) (m : Option Bytes)
      → ((c : C) → s.set (s.get c) c ≡ c)
      → apply_text parse fault s c m ≡ applied c'
      → (c' ≡ s.set (read_or parse (s.get c) m) c) × Reads parse m
  apply_text-eq-applied s c c' none law e = (applied_injective c c' e ∙ sym (law c), tt)
  apply_text-eq-applied s c c' (some text) law e =
      let (v, q, same) = parsed-eq-applied s (fault s.name) c c' (parse text) e in (same, (v, q))

  pub apply_settings-eq-applied :
      (ss : List (Setting C A)) (c c' : C)
      → Lawful ss
      → apply_settings parse fault vars ss c ≡ applied c'
      → (c' ≡ folded parse vars ss c) × AllRead parse vars ss
  unfolding apply_settings
  apply_settings-eq-applied [] c c' law e = (applied_injective c c' e, tt)
  apply_settings-eq-applied (s ∷ ss) c c' law e =
      let (mid, first, further) =
        bind-eq-applied (apply_text parse fault s c (lookup s.name vars))
          (apply_settings parse fault vars ss) c' e in
      let (same, reads) = apply_text-eq-applied s c mid (lookup s.name vars) law.0 first in
      let (rest, others) = apply_settings-eq-applied ss mid c' law.1 further in
      (rest ∙ ap (folded parse vars ss) same, (reads, others))
