-- ===== src/Headers/Tests.antt =====
-- internal/proxy/headers.go: runs of removeHopHeaders, and the theorem at a concrete header.
use go_proxy_mux.Prelude.{◌≡◌, refl, [], ◌∷◌}
use go_proxy_mux.Prelude.Bytes.{Bytes, codes, str_eq}
use go_proxy_mux.Prelude.Dict.{lookup, delete}
use go_proxy_mux.Headers
use go_proxy_mux.Headers.{Header, hop_headers, values, delete_named, remove_hop_headers}
use go_proxy_mux.Headers.Fields.{is_dropped, without}
use go_proxy_mux.Headers.Removed.{remove_hop_headers-without}

-- Names that are canonical already, and no blanks.
abbrev as_is : Bytes → Bytes
as_is text = text

abbrev two_fields : Header
two_fields =
    (codes "Connection", codes "X-A,X-B" ∷ [])
    ∷ (codes "X-A", codes "1" ∷ [])
    ∷ (codes "X-C", codes "2" ∷ [])
    ∷ (codes "Upgrade", codes "h2c" ∷ [])
    ∷ []

two_fields_run : remove_hop_headers as_is as_is two_fields ≡ (codes "X-C", codes "2" ∷ []) ∷ []
unfolding remove_hop_headers Headers.delete_named Headers.delete_values Headers.delete_tokens
    Headers.delete_all Headers.split_on values lookup delete str_eq
two_fields_run = refl

-- X-B is named by Proxy-Connection, which Connection names.
abbrev chained : Header
chained =
    (codes "Connection", codes "Proxy-Connection" ∷ [])
    ∷ (codes "Proxy-Connection", codes "X-B" ∷ [])
    ∷ (codes "X-B", codes "1" ∷ [])
    ∷ []

chained_run : remove_hop_headers as_is as_is chained ≡ (codes "X-B", codes "1" ∷ []) ∷ []
unfolding remove_hop_headers Headers.delete_named Headers.delete_values Headers.delete_tokens
    Headers.delete_all Headers.split_on values lookup delete str_eq
chained_run = refl

-- A client's login, and what is left of a request.
abbrev with_login : Header
with_login =
    (codes "Proxy-Authorization", codes "Basic x" ∷ [])
    ∷ (codes "Accept", codes "1" ∷ [])
    ∷ (codes "TE", codes "trailers" ∷ [])
    ∷ []

with_login_run : remove_hop_headers as_is as_is with_login ≡ (codes "Accept", codes "1" ∷ []) ∷ []
unfolding remove_hop_headers Headers.delete_named Headers.delete_values Headers.delete_tokens
    Headers.delete_all Headers.split_on values lookup delete str_eq
with_login_run = refl

remove_hop_headers-without_example :
    remove_hop_headers as_is as_is two_fields
    ≡ without (is_dropped as_is as_is two_fields) two_fields
remove_hop_headers-without_example = remove_hop_headers-without as_is as_is two_fields
