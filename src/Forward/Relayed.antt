-- ===== src/Forward/Relayed.antt =====
-- internal/proxy/http.go: the request that an upstream is sent, and which requests may be repeated,
-- said without the code's own words.
use go_proxy_mux.Prelude.{
  ◌≡◌, ◌≢◌, refl, ap, ◌∙◌, ◌⊎◌, inl, inr, ℕ, Bool, true, false, not, ◌&&◌, ◌||◌, [], Option, none,
  some, arith, if◌then◌else◌,
}
use go_proxy_mux.Prelude.Int.{pos, eqb_ℤ, eqb_ℤ_iff}
use go_proxy_mux.Prelude.Bytes.{Bytes, codes, str_eq, str_eq_iff}
use go_proxy_mux.Prelude.Dict.{delete}
use go_proxy_mux.Headers.{Header}
use go_proxy_mux.Headers.Fields.{is_dropped, without, without-without, without-delete}
use go_proxy_mux.Headers.Removed.{remove_hop_headers-without}
use go_proxy_mux.Forward.{
  Request, Surroundings, Response, Reply, passed, aborted, Target, target_of, is_bad_target,
  can_retry, is_none, outgoing, pass_on,
}

-- The host of the URL, or that of the Host field where the URL has neither scheme nor host.
pub data Destination (r m : Request) : Type 0 where
  of_host :
      r.scheme ≡ []
      → r.url_host ≡ []
      → r.host ≢ []
      → m.scheme ≡ codes "http"
      → m.url_host ≡ r.host
      → Destination r m
  of_url :
      (r.scheme ≢ []) ⊎ ((r.url_host ≢ []) ⊎ (r.host ≡ []))
      → m.scheme ≡ r.scheme
      → m.url_host ≡ r.url_host
      → Destination r m

-- The fields that concern one connection, and X-Forwarded-For.
abbrev pub is_withheld : Surroundings → Header → Bytes → Bool
is_withheld out header name =
    is_dropped out.canonical out.trim header name
    || str_eq (out.canonical (codes "X-Forwarded-For")) name

-- The request `m` that is sent for the client's request `r`.
pub record Relayed (out : Surroundings) (r m : Request) : Type 0 where
  pub destination : Destination r m
  pub host : m.host ≡ m.url_host
  pub request_uri : m.request_uri ≡ []
  pub header : m.header ≡ without (is_withheld out r.header) r.header
  pub url_rest : m.url_rest ≡ r.url_rest
  pub method : m.method ≡ r.method
  pub content_length : m.content_length ≡ r.content_length
  pub body : m.body ≡ r.body

-- A destination that is not refused: an http or https URL with a host.
pub record Servable (out : Surroundings) (m : Request) : Type 0 where
  pub scheme : (m.scheme ≡ codes "http") ⊎ (m.scheme ≡ codes "https")
  pub hostname : out.hostname m.url_host ≢ []

-- A GET or HEAD without a body.
pub record Repeatable (r : Request) : Type 0 where
  pub method : (r.method ≡ codes "GET") ⊎ (r.method ≡ codes "HEAD")
  pub content_length : r.content_length ≡ pos 0
  pub body : r.body ≡ none

-- The answer of upstream `i` to attempt `n`, handed to the client.
pub handed_on : Surroundings → ℕ → ℕ → Response → Reply
handed_on out n i response =
    let header = without (is_dropped out.canonical out.trim response.header) response.header in
    if out.copied n i then passed response.status header else aborted response.status header

pub pass_on-handed_on :
    (out : Surroundings) (n i : ℕ) (response : Response)
    → pass_on out n i response ≡ handed_on out n i response
unfolding pass_on handed_on
pass_on-handed_on out n i response =
    ap
      (λ header.
        if out.copied n i then passed response.status header else aborted response.status header)
      (remove_hop_headers-without out.canonical out.trim response.header)

abbrev target_if : Bool → Request → Target
target_if own r =
    if own
    then record { scheme = codes "http"; host = r.host }
    else record { scheme = r.scheme; host = r.url_host }

to_destination :
    (r m : Request) (no_scheme no_host empty : Bool)
    → str_eq r.scheme [] ≡ no_scheme
    → str_eq r.url_host [] ≡ no_host
    → str_eq r.host [] ≡ empty
    → m.scheme ≡ (target_if (no_scheme && (no_host && not empty)) r).scheme
    → m.url_host ≡ (target_if (no_scheme && (no_host && not empty)) r).host
    → Destination r m
to_destination r m true true false h1 h2 h3 e e' =
    of_host ((str_eq_iff r.scheme []).0 h1) ((str_eq_iff r.url_host []).0 h2)
      (λ same. absurd (ground (arith, (str_eq_iff r.host []).1 same))) e e'
to_destination r m true true true h1 h2 h3 e e' =
    of_url (inr (inr ((str_eq_iff r.host []).0 h3))) e e'
to_destination r m true false empty h1 h2 h3 e e' =
    of_url (inr (inl (λ same. absurd (ground (arith, (str_eq_iff r.url_host []).1 same))))) e e'
to_destination r m false no_host empty h1 h2 h3 e e' =
    of_url (inl (λ same. absurd (ground (arith, (str_eq_iff r.scheme []).1 same)))) e e'

pub outgoing-Relayed : (out : Surroundings) (r : Request) → Relayed out r (outgoing out r)
unfolding outgoing target_of
outgoing-Relayed out r = record {
  destination =
      to_destination r (outgoing out r) (str_eq r.scheme []) (str_eq r.url_host [])
        (str_eq r.host []) refl refl refl refl refl;
  host = refl;
  request_uri = refl;
  header =
      ap (delete (out.canonical (codes "X-Forwarded-For")))
        (remove_hop_headers-without out.canonical out.trim r.header)
      ∙ without-delete (out.canonical (codes "X-Forwarded-For")) _
      ∙ without-without (is_dropped out.canonical out.trim r.header)
          (str_eq (out.canonical (codes "X-Forwarded-For"))) r.header;
  url_rest = refl;
  method = refl;
  content_length = refl;
  body = refl;
}

is_none-none : (body : Option Bytes) → is_none body ≡ true → body ≡ none
is_none-none none e = refl
is_none-none (some body) e = absurd (ground arith)

all_three :
    (get head short empty : Bool)
    → ((get || head) && (short && empty)) ≡ true
    → ((get ≡ true) ⊎ (head ≡ true)) × (short ≡ true) × (empty ≡ true)
all_three true head true true e = (inl refl, refl, refl)
all_three false true true true e = (inr refl, refl, refl)
all_three true head true false e = absurd (ground arith)
all_three true head false empty e = absurd (ground arith)
all_three false true true false e = absurd (ground arith)
all_three false true false empty e = absurd (ground arith)
all_three false false short empty e = absurd (ground arith)

pub can_retry-Repeatable : (r : Request) → can_retry r ≡ true → Repeatable r
unfolding can_retry
can_retry-Repeatable r e =
    let (named, short, empty) =
      all_three (str_eq r.method (codes "GET")) (str_eq r.method (codes "HEAD"))
        (eqb_ℤ r.content_length (pos 0)) (is_none r.body) e in
    record {
      method = of_name named;
      content_length = (eqb_ℤ_iff r.content_length (pos 0)).0 short;
      body = is_none-none r.body empty;
    }
  where
    of_name :
        (str_eq r.method (codes "GET") ≡ true) ⊎ (str_eq r.method (codes "HEAD") ≡ true)
        → (r.method ≡ codes "GET") ⊎ (r.method ≡ codes "HEAD")
    of_name (inl get) = inl ((str_eq_iff r.method (codes "GET")).0 get)
    of_name (inr head) = inr ((str_eq_iff r.method (codes "HEAD")).0 head)

pub can_retry-never : (r : Request) → can_retry r ≡ false → ¬ Repeatable r
unfolding can_retry
can_retry-never r e p =
    let short = (eqb_ℤ_iff r.content_length (pos 0)).1 p.content_length in
    let empty : is_none r.body ≡ true = ap is_none p.body in named p.method (rw (short, empty) at e)
  where
    named :
        (r.method ≡ codes "GET") ⊎ (r.method ≡ codes "HEAD")
        → ((str_eq r.method (codes "GET") || str_eq r.method (codes "HEAD")) && true) ≡ false
        → ⊥
    named (inl get) h = ground (arith, (str_eq_iff r.method (codes "GET")).1 get)
    named (inr head) h = ground (arith, (str_eq_iff r.method (codes "HEAD")).1 head)

named_scheme :
    (scheme : Bytes) (http https empty : Bool)
    → str_eq scheme (codes "http") ≡ http
    → str_eq scheme (codes "https") ≡ https
    → (not http && not https || empty) ≡ false
    → ((scheme ≡ codes "http") ⊎ (scheme ≡ codes "https")) × (empty ≡ false)
named_scheme scheme true https empty h1 h2 e = (inl ((str_eq_iff scheme (codes "http")).0 h1), e)
named_scheme scheme false true empty h1 h2 e = (inr ((str_eq_iff scheme (codes "https")).0 h2), e)
named_scheme scheme false false empty h1 h2 e = absurd (ground arith)

pub is_bad_target-Servable :
    (out : Surroundings) (r : Request)
    → is_bad_target out (target_of r) ≡ false
    → Servable out (outgoing out r)
unfolding is_bad_target outgoing
is_bad_target-Servable out r e =
    let host = out.hostname (target_of r).host in
    let (named, some_host) = named_scheme (target_of r).scheme _ _ (str_eq host []) refl refl e in
    record {
      scheme = named;
      hostname = λ none. absurd (ground (arith, (str_eq_iff host []).1 none));
    }

not_https :
    (http https empty : Bool)
    → https ≡ true
    → (not http && not https || empty) ≡ true
    → empty ≡ true
not_https true https empty h e = e
not_https false true empty h e = e
not_https false false empty h e = absurd (ground arith)

pub is_bad_target-never :
    (out : Surroundings) (r : Request)
    → is_bad_target out (target_of r) ≡ true
    → ¬ Servable out (outgoing out r)
unfolding is_bad_target outgoing
is_bad_target-never out r e v = named v.scheme
  where
    named : ((target_of r).scheme ≡ codes "http") ⊎ ((target_of r).scheme ≡ codes "https") → ⊥
    named (inl http) =
        let same = (str_eq_iff (target_of r).scheme (codes "http")).1 http in
        v.hostname ((str_eq_iff (out.hostname (target_of r).host) []).0 (rw same at e))
    named (inr https) = v.hostname (
        (str_eq_iff (out.hostname (target_of r).host) []).0
          (not_https _ _ _ ((str_eq_iff (target_of r).scheme (codes "https")).1 https) e))
