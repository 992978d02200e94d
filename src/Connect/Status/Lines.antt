-- ===== src/Connect/Status/Lines.antt =====
-- internal/proxy/connect.go, readConnectStatus: the same on whole lines, however ReadLine cut them.
use go_proxy_mux.Prelude.{
  ℕ, zero, suc, ◌≤◌, ◌<◌, ◌≡◌, refl, sym, ap, ◌∙◌, true, false, Bool-cases, inl, inr, List, [], ◌∷◌,
  ◌++◌, Option, none, some, arith, length, length-append, if◌then◌else◌,
}
use go_proxy_mux.Prelude.Int.{ℤ, pos, ◌+ℤ◌, ◌-ℤ◌, ltb_ℤ, int_laws, ◌<ℤ◌, eq_of_parts, -ℤ_parts}
use go_proxy_mux.Prelude.Bytes.{Bytes, str_eq}
use go_proxy_mux.Net.{contains}
use go_proxy_mux.Connect.Status.{
  Part, max_header_bytes, read_limited_line, after_line, read_headers, status_of, with_rest,
  then_headers, after_status_line, read_connect_status,
}

-- The lines that are complete, the first one begun by `line`, each with what follows it.
unfoldable pub lines_of : Bytes → List Part → List (Bytes × List Part)
lines_of line [] = []
lines_of line ((part, true) ∷ parts) = lines_of (line ++ part) parts
lines_of line ((part, false) ∷ parts) = (line ++ part, parts) ∷ lines_of [] parts

-- A line with its end takes two bytes more than its text.
abbrev pub spend : ℤ → Bytes → ℤ
spend budget line = budget -ℤ pos (suc (suc (length line)))

-- The header's lines up to the first that is empty, each with a colon, within the budget: what
-- follows that one.
unfoldable pub header_end : ℤ → List (Bytes × List Part) → Option (List Part)
header_end budget [] = none
header_end budget ((line, rest) ∷ lines) =
    let later = header_end (spend budget line) lines in
    if ltb_ℤ (spend budget line) (pos 0)
    then none
    else if str_eq line []
    then some rest
    else if contains b':' line
    then later
    else none

abbrev pub headed : Option (List Part) → Option ℕ → Option (ℕ × List Part)
headed parts none = none
headed parts (some status) = with_rest status parts

-- The status line, and a header within what it leaves of the budget.
unfoldable pub response_end :
    (Bytes → List Bytes) → ℤ → List (Bytes × List Part) → Option (ℕ × List Part)
response_end fields budget [] = none
response_end fields budget ((line, rest) ∷ lines) =
    if ltb_ℤ (spend budget line) (pos 0)
    then none
    else headed (header_end (spend budget line) lines) (status_of (fields line))

-- The first line within a budget, and what is left of both.
first_line : ℤ → List (Bytes × List Part) → Option (Bytes × List Part × ℤ)
first_line budget [] = none
first_line budget ((line, rest) ∷ lines) =
    if ltb_ℤ (spend budget line) (pos 0) then none else some (line, rest, spend budget line)

lines_of-head :
    (line : Bytes) (parts : List Part) (found : Bytes) (rest : List Part)
    (lines : List (Bytes × List Part))
    → lines_of line parts ≡ (found, rest) ∷ lines
    → (length line ≤ length found) × (length rest < length parts) × (lines ≡ lines_of [] rest)
unfolding lines_of
lines_of-head line [] found rest lines e = absurd (ground arith)
lines_of-head line ((part, true) ∷ parts) found rest lines e =
    let (longer, fewer, same) = lines_of-head (line ++ part) parts found rest lines e in
    (omega (arith, length-append line part), omega arith, same)
lines_of-head line ((part, false) ∷ parts) found rest lines e =
    let text : line ++ part ≡ found = ground arith in
    let same : parts ≡ rest = ground arith in
    (
      omega (arith, length-append line part, ap length text),
      omega (arith, ap length same),
      ground arith,
    )

-- A line that is longer than the budget is not read.
first_line-none :
    (budget : ℤ) (line : Bytes) (parts : List Part) (lines : List (Bytes × List Part))
    → lines_of line parts ≡ lines
    → (budget -ℤ pos (length line)) <ℤ pos 0
    → first_line budget lines ≡ none
unfolding first_line
first_line-none budget line parts [] e h = refl
first_line-none budget line parts ((found, rest) ∷ lines) e h =
    let (longer, _, _) = lines_of-head line parts found rest lines e in
    let over : spend budget found <ℤ pos 0 = omega (
      arith,
      -ℤ_parts budget (pos (length line)),
      -ℤ_parts budget (pos (suc (suc (length found)))),
    ) in
    let test : ltb_ℤ (spend budget found) (pos 0) ≡ true = ground arith in rw test

read_limited_line-first_line :
    (line : Bytes) (parts : List Part) (remaining : ℤ)
    → read_limited_line line parts remaining
      ≡ first_line (remaining +ℤ pos (length line)) (lines_of line parts)
unfolding read_limited_line lines_of first_line
read_limited_line-first_line line [] remaining = refl
read_limited_line-first_line line ((part, true) ∷ parts) remaining =
    let left = remaining -ℤ pos (length part) in
    let same : left +ℤ pos (length (line ++ part)) ≡ remaining +ℤ pos (length line) =
      omega (int_laws, length-append line part) in
    elim (Bool-cases (ltb_ℤ left (pos 0))) [
      | inl over ↦
          let short : (remaining +ℤ pos (length line)) -ℤ pos (length (line ++ part)) <ℤ pos 0 =
            omega (
              int_laws,
              length-append line part,
              (let low : left <ℤ pos 0 = ground arith in low),
            ) in
          rw over (
            sym
              (first_line-none (remaining +ℤ pos (length line)) (line ++ part) parts _ refl short))
      | inr fits ↦ rw fits (
          read_limited_line-first_line (line ++ part) parts left
          ∙ ap (λ budget. first_line budget (lines_of (line ++ part) parts)) same)
    ]
read_limited_line-first_line line ((part, false) ∷ parts) remaining =
    let same : remaining -ℤ pos (suc (suc (length part)))
        ≡ spend (remaining +ℤ pos (length line)) (line ++ part) =
      omega (int_laws, length-append line part) in
    ap (λ left. if ltb_ℤ left (pos 0) then none else some (line ++ part, parts, left)) same

-- A round of the loop, where the rounds behind it go right.
after_line-header_end :
    (again : List Part → ℤ → Option (List Part)) (parts : List Part) (remaining : ℤ)
    (lines : List (Bytes × List Part))
    → ((rest : List Part) (left : ℤ)
        → length rest < length parts
        → again rest left ≡ header_end left (lines_of [] rest))
    → lines_of [] parts ≡ lines
    → after_line again (first_line remaining lines) ≡ header_end remaining lines
unfolding first_line header_end
after_line-header_end again parts remaining [] h e = refl
after_line-header_end again parts remaining ((line, rest) ∷ lines) h e =
    let (_, fewer, same) = lines_of-head [] parts line rest lines e in
    let left = spend remaining line in
    let later : again rest left ≡ header_end left lines =
      h rest left fewer ∙ ap (header_end left) (sym same) in
    elim (Bool-cases (ltb_ℤ left (pos 0))) [
      | inl over ↦ rw over
      | inr fits ↦ rw fits (
          ap (λ t. if str_eq line [] then some rest else if contains b':' line then t else none)
            later)
    ]

whole_line :
    (parts : List Part) (remaining : ℤ)
    → read_limited_line [] parts remaining ≡ first_line remaining (lines_of [] parts)
whole_line parts remaining =
    read_limited_line-first_line [] parts remaining
    ∙ ap (λ budget. first_line budget (lines_of [] parts)) (eq_of_parts _ _ (omega int_laws))

-- The loop reads the header's lines, with more fuel than there are parts.
read_headers-header_end :
    (fuel : ℕ) (parts : List Part) (remaining : ℤ)
    → length parts < fuel
    → read_headers fuel parts remaining ≡ header_end remaining (lines_of [] parts)
unfolding read_headers
read_headers-header_end zero parts remaining h = elim h [ ]
read_headers-header_end (suc fuel) parts remaining h =
    ap (after_line (read_headers fuel)) (whole_line parts remaining)
    ∙ after_line-header_end (read_headers fuel) parts remaining (lines_of [] parts)
        (λ rest left fewer. read_headers-header_end fuel rest left (omega arith)) refl

then_headers-headed :
    (parts : List Part) (remaining : ℤ) (status : Option ℕ)
    → then_headers parts remaining status ≡ headed (header_end remaining (lines_of [] parts)) status
then_headers-headed parts remaining none = refl
then_headers-headed parts remaining (some status) =
    ap (with_rest status)
      (read_headers-header_end (suc (length parts)) parts remaining (omega arith))

after_status_line-response_end :
    (fields : Bytes → List Bytes) (budget : ℤ) (parts : List Part)
    (lines : List (Bytes × List Part))
    → lines_of [] parts ≡ lines
    → after_status_line fields (first_line budget lines) ≡ response_end fields budget lines
unfolding first_line response_end
after_status_line-response_end fields budget parts [] e = refl
after_status_line-response_end fields budget parts ((line, rest) ∷ lines) e =
    let (_, _, same) = lines_of-head [] parts line rest lines e in
    elim (Bool-cases (ltb_ℤ (spend budget line) (pos 0))) [
      | inl over ↦ rw over
      | inr fits ↦ rw fits (
          then_headers-headed rest (spend budget line) (status_of (fields line))
          ∙ ap (λ ls. headed (header_end (spend budget line) ls) (status_of (fields line)))
              (sym same))
    ]

-- However the reader cuts the lines into parts, readConnectStatus comes to the same as on whole
-- lines: the status of the first line, with a header of lines that have a colon up to an empty
-- line, all of it within 65536 bytes; and the tunnel begins right behind that empty line. The loop
-- ends on every input.
pub read_connect_status-response_end :
    (fields : Bytes → List Bytes) (parts : List Part)
    → read_connect_status fields parts ≡ response_end fields max_header_bytes (lines_of [] parts)
unfolding read_connect_status
read_connect_status-response_end fields parts =
    ap (after_status_line fields) (whole_line parts max_header_bytes)
    ∙ after_status_line-response_end fields max_header_bytes parts (lines_of [] parts) refl
