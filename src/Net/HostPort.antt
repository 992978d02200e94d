-- ===== src/Net/HostPort.antt =====
-- Go's net.SplitHostPort, as limits.go, connect.go and socks.go use it.
pub mod Parts
use go_proxy_mux.Prelude.{ℕ, Bool, false, ◌||◌, [], ◌∷◌, Option, none, some, if◌then◌else◌, ◌==◌}
use go_proxy_mux.Prelude.Bytes.{Bytes}

-- Whether the byte occurs.
unfoldable pub contains : ℕ → Bytes → Bool
contains c [] = false
contains c (b ∷ bs) = b == c || contains c bs

unfoldable pub before_of : ℕ → Option (Bytes × Bytes) → Option (Bytes × Bytes)
before_of b none = none
before_of b (some (x, y)) = some (b ∷ x, y)

-- `strings.Cut`: the parts around the first occurrence.
unfoldable pub cut : ℕ → Bytes → Option (Bytes × Bytes)
unfolding before_of
cut c [] = none
cut c (b ∷ bs) = let rest = before_of b (cut c bs) in if b == c then some ([], bs) else rest

-- The parts around the last occurrence.
unfoldable pub cut_last : ℕ → Bytes → Option (Bytes × Bytes)
unfolding contains before_of
cut_last c [] = none
cut_last c (b ∷ bs) =
    let rest = before_of b (cut_last c bs) in
    if contains c bs then rest else if b == c then some ([], bs) else none

-- `[host]` before the last colon: the first `]` stands right before that colon.
bracketed : Bytes → Option (Bytes × Bytes) → Option (Bytes × Bytes)
bracketed port none = none
bracketed port (some (host, [])) =
    if contains b'[' host || contains b'[' port || contains b']' port
    then none
    else some (host, port)
bracketed port (some (host, x ∷ after)) = none

-- No brackets: no other colon, and no bracket anywhere.
plain : Bytes → Bytes → Option (Bytes × Bytes)
plain host port =
    if contains b':' host
      || (contains b'[' host || contains b'[' port)
      || (contains b']' host || contains b']' port)
    then none
    else some (host, port)

split_at_colon : Option (Bytes × Bytes) → Option (Bytes × Bytes)
unfolding bracketed plain
split_at_colon none = none
split_at_colon (some ([], port)) = plain [] port
split_at_colon (some (b ∷ bs, port)) =
    if b == b'[' then bracketed port (cut b']' bs) else plain (b ∷ bs) port

unfoldable pub split_host_port : Bytes → Option (Bytes × Bytes)
unfolding cut cut_last split_at_colon
split_host_port s = split_at_colon (cut_last b':' s)
