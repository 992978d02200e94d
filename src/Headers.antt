-- ===== src/Headers.antt =====
-- internal/proxy/headers.go: removeHopHeaders. A header is an association list from canonical names
-- to values. Go's http.CanonicalHeaderKey and strings.TrimSpace are the arguments `canonical` and
-- `trim`.
pub mod Fields
pub mod Removed
mod Tests
use go_proxy_mux.Prelude.{ℕ, Bool, List, [], ◌∷◌, ◌++◌, Option, none, some, if◌then◌else◌, ◌==◌}
use go_proxy_mux.Prelude.Bytes.{Bytes, codes, str_eq}
use go_proxy_mux.Prelude.Dict.{lookup, delete}

abbrev pub Header : Type 0
Header = List (Bytes × List Bytes)

abbrev pub hop_headers : List Bytes
hop_headers =
    codes "Connection"
    ∷ codes "Keep-Alive"
    ∷ codes "Proxy-Authenticate"
    ∷ codes "Proxy-Authorization"
    ∷ codes "Proxy-Connection"
    ∷ codes "TE"
    ∷ codes "Trailer"
    ∷ codes "Transfer-Encoding"
    ∷ codes "Upgrade"
    ∷ []

abbrev pub or_empty : Option (List Bytes) → List Bytes
or_empty none = []
or_empty (some values) = values

-- `header.Values(field)`
unfoldable pub values : (Bytes → Bytes) → Header → Bytes → List Bytes
values canonical h field = or_empty (lookup (canonical field) h)

abbrev pub onto_first : ℕ → List Bytes → List Bytes
onto_first b [] = (b ∷ []) ∷ []
onto_first b (part ∷ parts) = (b ∷ part) ∷ parts

-- Go's strings.Split by one byte.
unfoldable pub split_on : ℕ → Bytes → List Bytes
split_on c [] = [] ∷ []
split_on c (b ∷ bs) = let parts = split_on c bs in if b == c then [] ∷ parts else onto_first b parts

-- The loop over the tokens of a value.
unfoldable pub delete_tokens : (Bytes → Bytes) → (Bytes → Bytes) → List Bytes → Header → Header
delete_tokens canonical trim [] h = h
delete_tokens canonical trim (token ∷ tokens) h =
    let name = trim token in
    delete_tokens canonical trim tokens (if str_eq name [] then h else delete (canonical name) h)

-- The loop over the values of a field.
unfoldable pub delete_values : (Bytes → Bytes) → (Bytes → Bytes) → List Bytes → Header → Header
delete_values canonical trim [] h = h
delete_values canonical trim (value ∷ vs) h =
    delete_values canonical trim vs (delete_tokens canonical trim (split_on b',' value) h)

-- One round of the outer loop.
unfoldable pub delete_named : (Bytes → Bytes) → (Bytes → Bytes) → Bytes → Header → Header
delete_named canonical trim field h = delete_values canonical trim (values canonical h field) h

unfoldable pub delete_all : (Bytes → Bytes) → List Bytes → Header → Header
delete_all canonical [] h = h
delete_all canonical (name ∷ names) h = delete_all canonical names (delete (canonical name) h)

unfoldable pub remove_hop_headers : (Bytes → Bytes) → (Bytes → Bytes) → Header → Header
remove_hop_headers canonical trim h = delete_all canonical hop_headers (
    delete_named canonical trim (codes "Proxy-Connection")
      (delete_named canonical trim (codes "Connection") h))
