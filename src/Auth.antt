-- ===== src/Auth.antt =====
-- internal/proxy/auth.go: isAuthorized. Go's base64.StdEncoding.DecodeString and sha256.Sum256 are
-- the arguments `decode` and `sum`; the header is the text of Proxy-Authorization, empty without one.
pub mod Basic
mod Tests
use go_proxy_mux.Prelude.{
  ℕ, ◌+◌, Bool, true, false, not, ◌&&◌, ◌||◌, List, [], ◌∷◌, Option, none, some, length, take, drop,
  ltb, leb, if◌then◌else◌,
}
use go_proxy_mux.Prelude.Bytes.{Bytes, codes, str_eq}
use go_proxy_mux.Net.{cut}
use go_proxy_mux.Config.{AuthConfig}

-- The lower case of an ASCII letter.
unfoldable pub lower : ℕ → ℕ
lower c = if leb b'A' c && leb c b'Z' then c + 32 else c

unfoldable pub lower_all : Bytes → Bytes
lower_all [] = []
lower_all (c ∷ cs) = lower c ∷ lower_all cs

-- The first six bytes, against "Basic " by strings.EqualFold: six bytes that fold to six characters
-- are ASCII, so that only the case of letters is folded.
unfoldable pub is_basic : Bytes → Bool
is_basic header = not (ltb (length header) 6) && str_eq (lower_all (take 6 header)) (codes "basic ")

unfoldable pub matches : (Bytes → Bytes) → AuthConfig → Option (Bytes × Bytes) → Bool
matches sum cfg none = false
matches sum cfg (some (username, password)) =
    str_eq (sum cfg.username) (sum username) && str_eq (sum cfg.password) (sum password)

unfoldable pub check_decoded : (Bytes → Bytes) → AuthConfig → Option Bytes → Bool
check_decoded sum cfg none = false
check_decoded sum cfg (some decoded) = matches sum cfg (cut b':' decoded)

unfoldable pub is_authorized : (Bytes → Option Bytes) → (Bytes → Bytes) → AuthConfig → Bytes → Bool
is_authorized decode sum cfg header =
    if is_basic header then check_decoded sum cfg (decode (drop 6 header)) else false
