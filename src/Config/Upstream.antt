-- ===== src/Config/Upstream.antt =====
-- internal/config/validate.go: UpstreamURL, and the checks of one upstream. What url.Parse gives,
-- os.ReadFile and the search for PEM certificates are arguments; the text of an error is its kind.
use go_proxy_mux.Prelude.{
  Bool, true, false, not, ◌&&◌, ◌||◌, List, [], ◌∷◌, ◌++◌, Option, none, some, length, ltb,
  if◌then◌else◌,
}
use go_proxy_mux.Prelude.Bytes.{Bytes, codes, str_eq}
use go_proxy_mux.Prelude.Checks.{first_fault, or_else}
use go_proxy_mux.Net.{out_of_range, contains, atoi}
use go_proxy_mux.Config.{UpstreamAuth, UpstreamConfig}

-- What url.Parse, Hostname and Port give.
pub record Url : Type 0 where
  pub scheme : Bytes
  pub hostname : Bytes
  pub port : Bytes
  pub has_user : Bool
  pub path : Bytes
  pub raw_query : Bytes
  pub fragment : Bytes

-- What UpstreamURL sets of the URL that it returns; the path, query and fragment are empty.
pub record ProxyUrl : Type 0 where
  pub scheme : Bytes
  pub host : Bytes
  pub user : Option (Bytes × Bytes)

pub data UpstreamFault : Type 0 where
  bad_syntax bad_scheme bad_parts demonstration_url bad_port : UpstreamFault
  bad_login bad_socks4_login bad_socks5_login bad_http_login : UpstreamFault
  ca_without_https ca_unreadable ca_empty : UpstreamFault

pub data Checked (A : Type 0) : Type 0 where
  accepted : A → Checked A
  refused : UpstreamFault → Checked A

-- Go's strings.HasSuffix.
unfoldable pub has_suffix : Bytes → Bytes → Bool
has_suffix [] suffix = str_eq [] suffix
has_suffix (b ∷ bs) suffix = str_eq (b ∷ bs) suffix || has_suffix bs suffix

-- Go's net.JoinHostPort.
unfoldable pub join_host_port : Bytes → Bytes → Bytes
join_host_port host port =
    if contains b':' host
    then codes "[" ++ host ++ codes "]:" ++ port
    else host ++ codes ":" ++ port

unfoldable pub is_http : Bytes → Bool
is_http scheme = str_eq scheme (codes "http") || str_eq scheme (codes "https")

unfoldable pub is_socks : Bytes → Bool
is_socks scheme = str_eq scheme (codes "socks4") || str_eq scheme (codes "socks5")

unfoldable pub has_extra : Url → Bool
has_extra u =
    str_eq u.hostname []
    || (u.has_user
        || ((not (str_eq u.path []) && not (str_eq u.path (codes "/")))
            || (not (str_eq u.raw_query []) || not (str_eq u.fragment []))))

unfoldable pub port_of : Url → Bytes
port_of u =
    if not (str_eq u.port [])
    then u.port
    else if str_eq u.scheme (codes "https")
    then codes "443"
    else if str_eq u.scheme (codes "http")
    then codes "80"
    else codes "1080"

abbrev pub url_checks : Url → List (Bool × UpstreamFault)
url_checks u =
    (not (is_http u.scheme || is_socks u.scheme), bad_scheme)
    ∷ (has_extra u, bad_parts)
    ∷ (has_suffix u.hostname (codes ".example.com"), demonstration_url)
    ∷ (out_of_range (atoi (port_of u)), bad_port)
    ∷ []

unfoldable pub proxy_url : UpstreamAuth → Url → ProxyUrl
proxy_url auth u = record {
  scheme = u.scheme;
  host = join_host_port u.hostname (port_of u);
  user = if auth.enabled && is_http u.scheme then some (auth.username, auth.password) else none;
}

abbrev pub unless_fault : {A : Type 0} → Option UpstreamFault → A → Checked A
unless_fault none a = accepted a
unless_fault (some f) a = refused f

abbrev pub with_url : UpstreamAuth → Option Url → Checked ProxyUrl
with_url auth none = refused bad_syntax
with_url auth (some u) = unless_fault (first_fault (url_checks u)) (proxy_url auth u)

unfoldable pub upstream_url : (Bytes → Option Url) → UpstreamConfig → Checked ProxyUrl
upstream_url parse up = with_url up.auth (parse up.url)

-- The test of the credentials for the scheme.
unfoldable pub login_check : Bytes → UpstreamAuth → Bool × UpstreamFault
login_check scheme auth =
    if str_eq scheme (codes "socks4")
    then (
      not (str_eq auth.password []) || (ltb 255 (length auth.username) || contains 0 auth.username),
      bad_socks4_login,
    )
    else if str_eq scheme (codes "socks5")
    then (
      str_eq auth.password [] || (ltb 255 (length auth.username) || ltb 255 (length auth.password)),
      bad_socks5_login,
    )
    else (str_eq auth.password [] || contains b':' auth.username, bad_http_login)

unfoldable pub is_sample_login : UpstreamAuth → Bool
is_sample_login auth =
    str_eq auth.username []
    || (str_eq auth.username (codes "<upstream-username>")
        || str_eq auth.password (codes "<upstream-password>"))

unfoldable pub check_login : Bytes → UpstreamAuth → Option UpstreamFault
check_login scheme auth =
    if auth.enabled
    then first_fault ((is_sample_login auth, bad_login) ∷ login_check scheme auth ∷ [])
    else none

abbrev pub is_unreadable : Option Bytes → Bool
is_unreadable none = true
is_unreadable (some file) = false

abbrev pub has_none : (Bytes → Bool) → Option Bytes → Bool
has_none has_certificates none = true
has_none has_certificates (some file) = not (has_certificates file)

-- What the configuration's checks take from outside.
pub record Files : Type 0 where
  pub parse_url : Bytes → Option Url
  pub read_file : Bytes → Option Bytes
  pub has_certificates : Bytes → Bool

unfoldable pub check_ca : Files → Bytes → Bytes → Option UpstreamFault
check_ca files scheme ca_file =
    if str_eq ca_file []
    then none
    else first_fault (
        (not (str_eq scheme (codes "https")), ca_without_https)
        ∷ (is_unreadable (files.read_file ca_file), ca_unreadable)
        ∷ (has_none files.has_certificates (files.read_file ca_file), ca_empty)
        ∷ [])

abbrev pub check_parsed : Files → UpstreamConfig → Checked ProxyUrl → Option UpstreamFault
check_parsed files up (refused f) = some f
check_parsed files up (accepted p) =
    or_else (check_login p.scheme up.auth) (check_ca files p.scheme up.tls_ca_file)

unfoldable pub check_upstream : Files → UpstreamConfig → Option UpstreamFault
check_upstream files up = check_parsed files up (upstream_url files.parse_url up)
