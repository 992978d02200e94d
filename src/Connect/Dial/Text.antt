-- ===== src/Connect/Dial/Text.antt =====
-- internal/proxy/connect.go, dialConnect: a target that handleConnect lets through cannot add a
-- line to the request that goes to the upstream.
use go_proxy_mux.Prelude.{
  ℕ, ◌≡◌, refl, ap, ◌∙◌, Bool, true, false, ◌||◌, Bool-cases, inl, inr, List, [], ◌∷◌, ◌++◌, Option,
  none, some, arith, if◌then◌else◌, ◌==◌,
}
use mathlib.Core.List.{append_assoc}
use go_proxy_mux.Prelude.Int.{ℤ}
use go_proxy_mux.Prelude.Bytes.{Bytes, codes, str_eq}
use go_proxy_mux.Prelude.Checks.{or_else-eq-none, first_fault-eq-none}
use go_proxy_mux.Config.{UpstreamAuth}
use go_proxy_mux.Headers.{split_on, onto_first}
use go_proxy_mux.Net.{contains, split_host_port, atoi, out_of_range}
use go_proxy_mux.Net.HostPort.Parts.{contains-split_host_port}
use go_proxy_mux.Net.Digits.{is_apart, contains-atoi}
use go_proxy_mux.Connect
use go_proxy_mux.Connect.{Surroundings, Request, check_parts, check_request, target_of}
use go_proxy_mux.Connect.Dial.{line_end, login_field, connect_request}

-- The text before the first of the lines.
abbrev onto : Bytes → List Bytes → List Bytes
onto [] lines = lines
onto (b ∷ bs) lines = onto_first b (onto bs lines)

split_on-append :
    (c : ℕ) (x y : Bytes) → contains c x ≡ false → split_on c (x ++ y) ≡ onto x (split_on c y)
unfolding contains split_on
split_on-append c [] y h = refl
split_on-append c (b ∷ bs) y h =
    let other : (b == c) ≡ false = ground arith in
    let further : contains c bs ≡ false = ground arith in
    rw other (ap (onto_first b) (split_on-append c bs y further))

-- The credentials' line, where there is one, and the empty line.
abbrev pub last_lines : (Bytes → Bytes) → UpstreamAuth → List Bytes
last_lines encode auth =
    if auth.enabled
    then (codes "Proxy-Authorization: Basic "
        ++ (encode (auth.username ++ b':' ∷ auth.password) ++ 13 ∷ []))
      ∷ (13 ∷ [])
      ∷ []
      ∷ []
    else (13 ∷ []) ∷ [] ∷ []

-- Each line with the carriage return that ends it, and nothing behind the last line feed.
abbrev pub request_lines : (Bytes → Bytes) → UpstreamAuth → Bytes → List Bytes
request_lines encode auth target =
    (codes "CONNECT " ++ (target ++ (codes " HTTP/1.1" ++ 13 ∷ [])))
    ∷ (codes "Host: " ++ (target ++ 13 ∷ []))
    ∷ last_lines encode auth

onto-cons : (x p : Bytes) (ps : List Bytes) → onto x (p ∷ ps) ≡ (x ++ p) ∷ ps
onto-cons [] p ps = refl
onto-cons (b ∷ bs) p ps = ap (onto_first b) (onto-cons bs p ps)

split_on-line :
    (x y : Bytes)
    → contains 10 x ≡ false
    → split_on 10 (x ++ (line_end ++ y)) ≡ (x ++ 13 ∷ []) ∷ split_on 10 y
unfolding split_on
split_on-line x y h = split_on-append 10 x (line_end ++ y) h ∙ onto-cons x (13 ∷ []) (split_on 10 y)

split_on-word :
    (x y p : Bytes) (ps : List Bytes)
    → contains 10 x ≡ false
    → split_on 10 y ≡ p ∷ ps
    → split_on 10 (x ++ y) ≡ (x ++ p) ∷ ps
split_on-word x y p ps h e = split_on-append 10 x y h ∙ ap (onto x) e ∙ onto-cons x p ps

split_on-login_field :
    (encode : Bytes → Bytes) (auth : UpstreamAuth)
    → ((t : Bytes) → contains 10 (encode t) ≡ false)
    → split_on 10 (login_field encode auth ++ line_end) ≡ last_lines encode auth
unfolding login_field split_on contains
split_on-login_field encode auth plain = elim (Bool-cases auth.enabled) [
  | inl on ↦
      let text = encode (auth.username ++ b':' ∷ auth.password) in
      let lines = split_on-line text line_end (plain _) in
      rw on (
        ap (λ t. split_on 10 (codes "Proxy-Authorization: Basic " ++ t))
          (append_assoc text line_end line_end)
        ∙ split_on-word (codes "Proxy-Authorization: Basic ") (text ++ (line_end ++ line_end))
            (text ++ 13 ∷ []) ((13 ∷ []) ∷ [] ∷ []) refl lines)
  | inr off ↦ rw off refl
]

split_on-connect_request :
    (encode : Bytes → Bytes) (auth : UpstreamAuth) (target : Bytes)
    → ((t : Bytes) → contains 10 (encode t) ≡ false)
    → contains 10 target ≡ false
    → split_on 10 (connect_request encode auth target) ≡ request_lines encode auth target
unfolding connect_request contains
split_on-connect_request encode auth target plain h =
    let behind = login_field encode auth ++ line_end in
    let host =
      split_on-word (codes "Host: ") (target ++ (line_end ++ behind)) (target ++ 13 ∷ [])
        (split_on 10 behind) refl (split_on-line target behind h) in
    let first =
      split_on-word target
        (codes " HTTP/1.1" ++ (line_end ++ (codes "Host: " ++ (target ++ (line_end ++ behind)))))
        (codes " HTTP/1.1" ++ 13 ∷ [])
        (split_on 10 (codes "Host: " ++ (target ++ (line_end ++ behind)))) h
        (split_on-line (codes " HTTP/1.1") (codes "Host: " ++ (target ++ (line_end ++ behind)))
          refl) in
    split_on-word (codes "CONNECT ") _ (target ++ (codes " HTTP/1.1" ++ 13 ∷ []))
      (split_on 10 (codes "Host: " ++ (target ++ (line_end ++ behind)))) refl first
    ∙ ap (λ ls. (codes "CONNECT " ++ (target ++ (codes " HTTP/1.1" ++ 13 ∷ []))) ∷ ls)
        (host
          ∙ ap (λ ls. (codes "Host: " ++ (target ++ 13 ∷ [])) ∷ ls)
              (split_on-login_field encode auth plain))

some_port : (m : Option ℤ) → out_of_range m ≡ false → (z : ℤ) × (m ≡ some z)
some_port none e = absurd (ground arith)
some_port (some z) e = (z, refl)

-- The two bytes that end lines.
abbrev ends_line : ℕ → Bool
ends_line c = c == 13 || c == 10

no_digit : (c : ℕ) → ends_line c ≡ true → is_apart c ≡ false
no_digit c k = ground arith

no_bracket : (c : ℕ) → ends_line c ≡ true → contains c (b'[' ∷ b']' ∷ b':' ∷ []) ≡ false
unfolding contains
no_bracket c k = ground arith

neither :
    (c : ℕ) (t : Bytes)
    → ends_line c ≡ true
    → (contains 13 t || contains 10 t) ≡ false
    → contains c t ≡ false
neither c t k e = elim (Bool-cases (c == 13)) [
  | inl return ↦ let same : c ≡ 13 = ground arith in rw same (ground arith)
  | inr other ↦ let same : c ≡ 10 = ground arith in rw same (ground arith)
]

parts_apart :
    (c : ℕ) (s : Bytes) (m : Option (Bytes × Bytes))
    → ends_line c ≡ true
    → split_host_port s ≡ m
    → check_parts m ≡ none
    → contains c s ≡ false
parts_apart c s none k e h = absurd (ground arith)
parts_apart c s (some (hostname, port)) k e h =
    let tests =
      first_fault-eq-none
        ((
          str_eq hostname [] || (contains 13 hostname || contains 10 hostname),
          Connect.bad_destination,
        )
          ∷ (out_of_range (atoi port), Connect.bad_port)
          ∷ [])
        h in
    let name = tests.0 in
    let (z, digits) = some_port (atoi port) tests.1.0 in
    contains-split_host_port c s hostname port e (neither c hostname k (ground arith))
      (contains-atoi c port z (no_digit c k) digits) (no_bracket c k)

target_apart :
    (out : Surroundings) (r : Request) (c : ℕ)
    → ends_line c ≡ true
    → check_request out r ≡ none
    → contains c (target_of r) ≡ false
unfolding check_request
target_apart out r c k h =
    parts_apart c (target_of r) _ k refl
      (or_else-eq-none (check_parts (split_host_port (target_of r))) _ h).0

-- Where Go's base64 puts no line feed into its text, the request that dialConnect sends for a
-- target that handleConnect lets through is, cut at the line feeds, exactly the CONNECT line, the
-- Host line, the credentials' line when the upstream has any and the empty line, and the target has
-- no carriage return either: a client cannot add a field or a second request.
pub connect_request-check_request :
    (out : Surroundings) (r : Request) (encode : Bytes → Bytes) (auth : UpstreamAuth)
    → ((t : Bytes) → contains 10 (encode t) ≡ false)
    → check_request out r ≡ none
    → (split_on 10 (connect_request encode auth (target_of r))
        ≡ request_lines encode auth (target_of r))
      × (contains 13 (target_of r) ≡ false)
connect_request-check_request out r encode auth plain h = (
  split_on-connect_request encode auth (target_of r) plain (target_apart out r 10 refl h),
  target_apart out r 13 refl h,
)
