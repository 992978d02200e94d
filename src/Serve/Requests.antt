-- ===== src/Serve/Requests.antt =====
-- internal/proxy/server.go: any requests, one after another, on a server that NewProxyServer made.
use go_proxy_mux.Prelude.{List, [], ◌∷◌}
use go_proxy_mux.Config.{Config}
use go_proxy_mux.Serve.{ProxyServer, Request, Surroundings, Answer, serve_http}

-- The server and the answers after a list of requests, each with what it meets.
pub record Ran : Type 0 where
  pub server : ProxyServer
  pub answers : List Answer

pub run : ProxyServer → List (Surroundings × Request) → Ran
run s [] = record { server = s; answers = [] }
run s ((out, r) ∷ rest) =
    let t = serve_http out s r in
    let later = run t.server rest in record later { answers = t.answer ∷ later.answers }
