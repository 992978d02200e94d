-- ===== src/Body/Tests.antt =====
-- internal/proxy/http_body.go: a run of the watch over a body, and the theorem at it.
use go_proxy_mux.Prelude.{◌≡◌, refl, true, false, some}
use go_proxy_mux.Body.{
  Watch, started, read, fire, write, not_supported, copy_http_response, body_idle,
}

-- Five bytes at 60; the timer, due at 100, is set anew to 160.
abbrev at_100 : Watch
at_100 = fire 100 100 (read 5 60 (started 100))

at_100_run : at_100.due ≡ 160
unfolding fire read
at_100_run = refl

at_160_run : (fire 100 160 at_100).cancelled ≡ true
unfolding fire read
at_160_run = refl

write_run : write 3 false not_supported ≡ false
unfolding write
write_run = refl

copy_run : copy_http_response true true ≡ some body_idle
unfolding copy_http_response
copy_run = refl
