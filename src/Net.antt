-- ===== src/Net.antt =====
-- What the program uses of Go's net, strings and strconv: SplitHostPort, Cut, ContainsAny and Atoi.
-- An error of theirs carries nothing that the program looks at, and is `none` here.
pub mod HostPort
pub mod Cut
pub mod Digits
unfoldable pub use HostPort.{contains, cut, cut_last, split_host_port}
use go_proxy_mux.Prelude.{
  ℕ, ◌+◌, ◌-◌, ◌*◌, ◌<◌, Bool, true, false, not, ◌&&◌, ◌||◌, List, [], ◌∷◌, Option, none, some,
  if◌then◌else◌, leb, ltb, ◌==◌,
}
use go_proxy_mux.Prelude.Int.{ℤ, pos, negsuc, sub_ℕ, ltb_ℤ}
use go_proxy_mux.Prelude.Bytes.{Bytes}

-- A decimal digit's value.
digit : ℕ → Option ℕ
digit c = if leb b'0' c && leb c b'9' then some (c - b'0') else none

-- Decimal digits after those that `acc` stands for.
digits_value : ℕ → Bytes → Option ℕ
digits_value acc [] = some acc
digits_value acc (c ∷ cs) = elim (digit c) [ none ↦ none | some d ↦ digits_value (acc * 10 + d) cs ]

unsigned : Bytes → Option ℕ
unsigned [] = none
unsigned (c ∷ cs) = digits_value 0 (c ∷ cs)

-- The range of a 64-bit int.
positive : Option ℕ → Option ℤ
positive none = none
positive (some n) = if ltb n 9_223_372_036_854_775_808 then some (pos n) else none

negative : Option ℕ → Option ℤ
negative none = none
negative (some n) = if leb n 9_223_372_036_854_775_808 then some (sub_ℕ 0 n) else none

-- `strconv.Atoi`: an optional sign, then decimal digits.
unfoldable pub atoi : Bytes → Option ℤ
unfolding digit digits_value unsigned positive negative
atoi [] = none
atoi (c ∷ cs) =
    if c == b'+'
    then positive (unsigned cs)
    else if c == b'-'
    then negative (unsigned cs)
    else positive (unsigned (c ∷ cs))

-- What the code tests of a port: an error of Atoi, or a number outside of 1 to 65535.
abbrev pub out_of_range : Option ℤ → Bool
out_of_range none = true
out_of_range (some p) = ltb_ℤ p (pos 1) || ltb_ℤ (pos 65535) p
