-- ===== src/Config/Usable.antt =====
-- internal/config/validate.go: what an accepted configuration gives of its upstreams, for the
-- balancer and for the connections through them.
use go_proxy_mux.Prelude.{
  ℕ, suc, ◌≡◌, refl, subst, ◌≢◌, inl, inr, Bool, true, false, Bool-cases, not, ◌&&◌, ◌||◌, List, [],
  ◌∷◌, Option, none, some, arith, length, All, if◌then◌else◌, ◌==◌,
}
use go_proxy_mux.Prelude.Int.{ℤ, pos, ◌≤ℤ◌}
use go_proxy_mux.Prelude.Bytes.{Bytes, codes, str_eq}
use go_proxy_mux.Prelude.Checks.{first_fault, or_else-eq-none, first_fault-eq-none}
use go_proxy_mux.Net.{out_of_range, contains, atoi}
use go_proxy_mux.Config.{UpstreamAuth, UpstreamConfig, Config}
use go_proxy_mux.Config.Upstream.{
  Files, Url, UpstreamFault, bad_login, accepted, is_http, is_socks, has_extra, port_of, url_checks,
  proxy_url, unless_fault, with_url, upstream_url, login_check, is_sample_login, check_login,
  check_parsed, check_upstream,
}
use go_proxy_mux.Config.Validate.{Outside, at_index, check_upstreams, check_any, validate}
use go_proxy_mux.Config.Accepted.{filled, validate-Passed}
use go_proxy_mux.Socks.Version4.{bad_user4}
use go_proxy_mux.Socks.Version5.{Credentials, bad_credentials}

-- connect.go, dialConnect: the credentials that a SOCKS upstream is dialled with.
unfoldable pub credentials_of : UpstreamAuth → Credentials
credentials_of auth = record {
  enabled = auth.enabled;
  username = auth.username;
  password = auth.password;
}

-- What the SOCKS client asks of the credentials.
pub record Suits (scheme : Bytes) (c : Credentials) : Type 0 where
  pub for_socks5 : scheme ≡ codes "socks5" → bad_credentials c ≡ false
  pub for_socks4 :
      scheme ≡ codes "socks4"
      → (bad_user4 (if c.enabled then c.username else []) ≡ false)
        × ((c.enabled && not (str_eq c.password [])) ≡ false)

-- An upstream that can be dialled: its URL parses, to one of the four schemes, a hostname and a
-- port of 1 to 65535, and its credentials suit the scheme.
pub record Usable (files : Files) (up : UpstreamConfig) : Type 0 where
  pub url : Url
  pub port : ℤ
  pub is_parsed : files.parse_url up.url ≡ some url
  pub is_result : upstream_url files.parse_url up ≡ accepted (proxy_url up.auth url)
  pub is_known : (is_http url.scheme || is_socks url.scheme) ≡ true
  pub is_named : url.hostname ≢ []
  pub is_port : atoi (port_of url) ≡ some port
  pub at_least_one : pos 1 ≤ℤ port
  pub at_most : port ≤ℤ pos 65535
  pub login : Suits url.scheme (credentials_of up.auth)

length-filled : (s : Bytes) → str_eq s [] ≡ false → (length s == 0) ≡ false
unfolding str_eq
length-filled [] h = absurd (ground arith)
length-filled (b ∷ s) h = ground arith

socks5_login :
    (auth : UpstreamAuth)
    → is_sample_login auth ≡ false
    → (login_check (codes "socks5") auth).0 ≡ false
    → bad_credentials (credentials_of auth) ≡ false
unfolding is_sample_login login_check bad_credentials credentials_of str_eq
socks5_login auth sample test =
    let has_user = length-filled auth.username (ground arith) in
    let has_password = length-filled auth.password (ground arith) in ground arith

socks4_login :
    (auth : UpstreamAuth)
    → (login_check (codes "socks4") auth).0 ≡ false
    → (bad_user4 auth.username ≡ false) × (not (str_eq auth.password []) ≡ false)
unfolding login_check bad_user4 str_eq
socks4_login auth test = (ground arith, ground arith)

no_user : bad_user4 [] ≡ false
unfolding bad_user4 contains
no_user = refl

checked_if :
    {F : Type 0} (b : Bool) (m : Option F) → b ≡ true → (if b then m else none) ≡ none → m ≡ none
checked_if true m h e = e
checked_if false m h e = absurd (ground arith)

check_login-Suits :
    (scheme : Bytes) (auth : UpstreamAuth)
    → check_login scheme auth ≡ none
    → Suits scheme (credentials_of auth)
unfolding check_login credentials_of bad_credentials
check_login-Suits scheme auth e = elim (Bool-cases auth.enabled) [
  | inr off ↦ record { for_socks5 = λ is5. rw off; for_socks4 = λ is4. (rw off no_user, rw off) }
  | inl on ↦
      let checks = (is_sample_login auth, bad_login) ∷ login_check scheme auth ∷ [] in
      let (sample, (test, _)) =
        first_fault-eq-none checks (checked_if auth.enabled (first_fault checks) on e) in
      record {
        for_socks5 =
            λ is5. socks5_login auth sample (subst (λ s. (login_check s auth).0 ≡ false) is5 test);
        for_socks4 = λ is4.
            let (user, password) =
              socks4_login auth (subst (λ s. (login_check s auth).0 ≡ false) is4 test) in
            (rw on user, rw on password);
      }
]

port_in_range :
    (p : Option ℤ)
    → out_of_range p ≡ false
    → (n : ℤ) × (p ≡ some n) × (pos 1 ≤ℤ n) × (n ≤ℤ pos 65535)
port_in_range none h = absurd (ground arith)
port_in_range (some n) h = (n, refl, ground arith, ground arith)

named : (u : Url) → has_extra u ≡ false → u.hostname ≢ []
unfolding has_extra
named u h = filled u.hostname (ground arith)

parsed-Usable :
    (files : Files) (up : UpstreamConfig) (u : Url)
    → files.parse_url up.url ≡ some u
    → (fault : Option UpstreamFault) → first_fault (url_checks u) ≡ fault
    → check_parsed files up (unless_fault fault (proxy_url up.auth u)) ≡ none
    → Usable files up
unfolding upstream_url proxy_url
parsed-Usable files up u q (some f) h e = absurd (ground arith)
parsed-Usable files up u q none h e =
    let (known, (parts, (_, (ranged, _)))) = first_fault-eq-none (url_checks u) h in
    let (login, _) = or_else-eq-none (check_login u.scheme up.auth) _ e in
    let (n, read, low, high) = port_in_range (atoi (port_of u)) ranged in
    record {
      url = u;
      port = n;
      is_parsed = q;
      is_result = rw (q, h);
      is_known = ground arith;
      is_named = named u parts;
      is_port = read;
      at_least_one = low;
      at_most = high;
      login = check_login-Suits u.scheme up.auth login;
    }

url-Usable :
    (files : Files) (up : UpstreamConfig) (r : Option Url)
    → files.parse_url up.url ≡ r
    → check_parsed files up (with_url up.auth r) ≡ none
    → Usable files up
url-Usable files up none q e = absurd (ground arith)
url-Usable files up (some u) q e = parsed-Usable files up u q _ refl e

check_upstream-Usable :
    (files : Files) (up : UpstreamConfig) → check_upstream files up ≡ none → Usable files up
unfolding check_upstream upstream_url
check_upstream-Usable files up e = url-Usable files up _ refl e

pub at_index-eq-none : (i : ℕ) (m : Option UpstreamFault) → at_index i m ≡ none → m ≡ none
at_index-eq-none i none e = refl
at_index-eq-none i (some f) e = absurd (ground arith)

check_upstreams-Usable :
    (files : Files) (i : ℕ) (ups : List UpstreamConfig)
    → check_upstreams files i ups ≡ none
    → All (Usable files) ups
check_upstreams-Usable files i [] e = tt
check_upstreams-Usable files i (up ∷ ups) e =
    let (first, rest) = or_else-eq-none (at_index i (check_upstream files up)) _ e in
    (
      check_upstream-Usable files up (at_index-eq-none i _ first),
      check_upstreams-Usable files (suc i) ups rest,
    )

check_any-Usable :
    (files : Files) (ups : List UpstreamConfig)
    → check_any files ups ≡ none
    → (ups ≢ []) × All (Usable files) ups
check_any-Usable files [] e = absurd (ground arith)
check_any-Usable files (up ∷ ups) e =
    (λ same. ground arith, check_upstreams-Usable files 0 (up ∷ ups) e)

-- A configuration that Validate accepts has at least one upstream, and each of them can be dialled:
-- UpstreamURL gives a proxy for it, with one of the four schemes, a hostname and a port of 1 to
-- 65535, and the SOCKS client takes its credentials for the scheme.
pub validate-Usable :
    (out : Outside) (cfg : Config)
    → validate out (some cfg) ≡ none
    → (cfg.upstreams ≢ []) × All (Usable out.files) cfg.upstreams
validate-Usable out cfg e =
    let p = validate-Passed out cfg e in check_any-Usable out.files cfg.upstreams p.upstreams
