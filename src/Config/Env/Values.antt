-- ===== src/Config/Env/Values.antt =====
-- internal/config/env.go: readEnvValues and validEnvName. The lines that the scanner gives, whether it
-- fails behind them, os.Environ and strings.TrimSpace are given.
pub mod Environ
pub mod Lines
pub mod Sources
use go_proxy_mux.Prelude.{
  ℕ, suc, Bool, true, false, not, ◌&&◌, ◌||◌, ◌==◌, leb, List, [], ◌∷◌, Option, none, some,
  if◌then◌else◌,
}
use go_proxy_mux.Prelude.Bytes.{Bytes, codes, str_eq}
use go_proxy_mux.Prelude.Dict.{lookup, insert}
use go_proxy_mux.Net.{cut}
use go_proxy_mux.Config.Env.Settings.{
  Variables, EnvFault, unreadable_file, bad_line, duplicate, Applied, applied, faulty, ◌>>=◌,
}
use go_proxy_mux.Config.Env.{has_prefix}

-- What opening the file comes to.
pub data EnvFile : Type 0 where
  no_path missing unreadable : EnvFile
  opened : List Bytes → Bool → EnvFile

abbrev is_upper : ℕ → Bool
is_upper b = leb b'A' b && leb b b'Z'

abbrev all_name : Bytes → Bool
all_name [] = true
all_name (b ∷ bs) = (is_upper b || (leb b'0' b && leb b b'9') || b == b'_') && all_name bs

unfoldable pub valid_env_name : Bytes → Bool
valid_env_name [] = false
valid_env_name (b ∷ bs) = is_upper b && all_name bs

-- `strings.TrimSuffix(text, "\r")`
unfoldable pub trim_return : Bytes → Bytes
trim_return [] = []
trim_return (b ∷ bs) = if b == 13 && str_eq bs [] then [] else b ∷ trim_return bs

abbrev pub is_ours : Bytes → Bool
is_ours key = has_prefix key (codes "MUX_")

abbrev pub add_new : Variables → Bytes → Bytes → Option Bytes → Applied Variables
add_new vars key value none = applied (insert key value vars)
add_new vars key value (some old) = faulty (duplicate key)

-- An assignment on line `n`, in its two parts.
abbrev pub assign : (Bytes → Bytes) → ℕ → Variables → Option (Bytes × Bytes) → Applied Variables
assign trim n vars none = faulty (bad_line n)
assign trim n vars (some (key, value)) =
    if not (valid_env_name (trim key))
    then faulty (bad_line n)
    else if not (is_ours (trim key))
    then applied vars
    else add_new vars (trim key) value (lookup (trim key) vars)

unfoldable pub read_line : (Bytes → Bytes) → ℕ → Variables → Bytes → Applied Variables
read_line trim n vars text =
    let line = trim_return text in
    if str_eq (trim line) [] || has_prefix (trim line) (codes "#")
    then applied vars
    else assign trim n vars (cut b'=' line)

-- The loop over the lines, from line `n` on.
unfoldable pub read_lines : (Bytes → Bytes) → ℕ → List Bytes → Variables → Applied Variables
read_lines trim n [] vars = applied vars
read_lines trim n (text ∷ lines) vars = read_line trim n vars text >>= read_lines trim (suc n) lines

unfoldable pub read_file : (Bytes → Bytes) → EnvFile → Applied Variables
read_file trim no_path = applied []
read_file trim missing = applied []
read_file trim unreadable = faulty unreadable_file
read_file trim (opened lines fails) =
    read_lines trim 1 lines [] >>= λ vars. if fails then faulty unreadable_file else applied vars

abbrev pub override : Variables → Option (Bytes × Bytes) → Variables
override vars none = vars
override vars (some (key, value)) = if is_ours key then insert key value vars else vars

-- The loop over os.Environ.
unfoldable pub add_environ : List Bytes → Variables → Variables
add_environ [] vars = vars
add_environ (assignment ∷ more) vars = add_environ more (override vars (cut b'=' assignment))

unfoldable pub read_env_values : (Bytes → Bytes) → EnvFile → List Bytes → Applied Variables
read_env_values trim file environ =
    read_file trim file >>= λ vars. applied (add_environ environ vars)
