-- ===== src/Lib.antt =====
-- Verification of go_proxy_mux, an HTTP proxy that passes each request on to one of several upstream
-- proxies (HTTP, HTTPS, SOCKS4 or SOCKS5).
--
-- A configuration is read and checked once. A connection that is accepted is counted, in all and by
-- the address that it comes from, and so is each tunnel. A request is let in when its login is right
-- and its address is not blocked; the balancer then chooses an upstream, and hears whether it served.
-- A tunnel through a SOCKS upstream begins with the conversation of the SOCKS client.
--
--   Config           internal/config/config.go: the records of the configuration, Default.
--   Config/Upstream  internal/config/validate.go: UpstreamURL and the checks of one upstream.
--   Config/Validate  internal/config/validate.go: Validate, as the first test that fails.
--   Config/Accepted, Config/Usable
--                    what an accepted configuration gives to the other parts; Config/Samples has
--                    configurations that the tests run on.
--   Config/Env       internal/config/env.go: applyEnvOverrides, whose tables are in Env/Settings; Folded
--                    and Overrides say what the tables come to, Upstreams what the upstreams do,
--                    Merged both; Env/Values is readEnvValues, with its sources in Environ, Lines and
--                    Sources.
--   Config/Load      internal/config/config.go: LoadConfigWithEnv; Layers has defaults, file and
--                    variables together.
--   Balancer         internal/balancer/balancer.go: New, Next, MarkFailure, MarkSuccess are new, next,
--                    mark_failure, mark_success; proofs in Select, RoundRobin and Health.
--   Limits           internal/proxy/limits.go: newConcurrentLimiter, tryAcquire, the release closure,
--                    addressHost; Limits/Accept has the listener and the connection; proofs on any
--                    sequence of operations in Ledger, on the counts in Counts.
--   AuthLimit        internal/proxy/auth_limit.go: newAuthFailureLimiter, attempt; Judge states what
--                    they promise, over one table from addresses to entries, Table and Agrees relate
--                    the two, Refines proves it, Lockout has what follows for a client.
--   Socks/Wire       internal/socks/socks.go: writeAll and io.ReadFull on a scripted connection.
--   Socks/Version4, Socks/Version5
--                    connect4, connect5; Decode is a server's reading of the messages, from the
--                    protocols; Sends and Secrecy say what was sent and heard.
--   Socks/Dial       DialContext; Checks has the target and the owner of the connection, Reaches
--                    which destination the proxy is asked for.
--   Connect          internal/proxy/connect.go: handleConnect, on the tunnel limiter and the balancer;
--                    what dialConnect comes to is given for each attempt and upstream. Failover has
--                    the upstreams that it tries, Release the limiter over the whole handler.
--   Connect/Dial     the same file: dialConnect through an HTTP or HTTPS upstream, setupError; Text has
--                    the lines of the request that it sends, Owner the connection when it returns,
--                    Handled the attempts of handleConnect over it.
--   Connect/Status   the same file: readConnectStatus, readLimitedLine; Lines compares them with a
--                    reading of whole lines.
--   Forward          internal/proxy/http.go: forwardRequest, doHTTPRequest, writeUpstreamError;
--                    Relayed and Verdict say, without the code's words, what an upstream is sent and
--                    what an attempt is to the client; Attempts has what is sent to which upstream,
--                    Bodies the responses' bodies.
--   Serve            internal/proxy/server.go: NewProxyServer and ServeHTTP over Config, Balancer,
--                    Limits, AuthLimit, Auth, Connect and Forward; Serve/Transports makes an upstream's
--                    transport, Suited says what it has to be, Build is about the server that is made,
--                    Admission about who is let in, Requests about any sequence of requests, over
--                    Sound, KeptConnect, KeptForward, Fine and Created.
--   Headers          internal/proxy/headers.go: removeHopHeaders; Fields says which fields concern one
--                    connection, Removed has the fields that it leaves.
--   Auth             internal/proxy/auth.go: isAuthorized; Basic has the headers that it lets in.
--   Body             internal/proxy/http_body.go: the watch over a response's body; Idle says when a body
--                    is given up.
--   Tunnel           internal/proxy/tunnel.go: Registry has tunnelRegistry, Relay has relay, relayHTTP1
--                    and relayHTTP2, Idle has idleCloser; Shutdown is about the counter that a shutdown
--                    waits for, Closed about how a tunnel ends, Idle/Silence about its timer.
--   Running          internal/proxy/run.go: Run, newHTTPServer, effectiveHTTP2MaxConcurrentStreams; Order
--                    has what Run serves with and the order in which it stops.
--   Net              what the code uses of Go's net, strings and strconv; HostPort/Parts, Cut and Digits
--                    say which bytes a text has when it is taken apart.
--   Prelude          shared names, lists, signed integers, bytes, association lists.
--
-- How the code is read.
--   A method under a mutex is one step on the state, so any interleaving of callers is a sequence
--   of steps. The clock's readings, the random draws, what net.ParseIP, url.Parse,
--   http.CanonicalHeaderKey, strings.TrimSpace, time.ParseDuration, yaml, base64 and sha256 give,
--   the files, their lines, the environment and the certificates are arguments. A time is the
--   number of nanoseconds since Go's zero Time, so that IsZero is equality with 0; in Body and
--   Tunnel/Idle, which only measure how long something lasts, a time and a duration are natural
--   numbers. A Go int or Duration is an integer without bounds: no theorem speaks of a count or a
--   sum near 2^63. A uint16 or a byte keeps its wrap-around, written % 256. A string is the list
--   of its bytes. A Go map is an association list. An element of container/list is known by the
--   address that its entry holds. A release closure is a lease with the bit of its sync.Once. A
--   connection of the SOCKS client is a script: the peer's bytes, and how much each Write takes or
--   whether it fails; what is sent is recorded. A Write takes at most the bytes that it is given.
--   The text of an error is left out, its kind is kept.
--   The panic with http.ErrAbortHandler, when the copy of an answer's body fails, is the reply
--   `aborted`; any other panic of a request is the answer `panicked`: a failed login where there is no
--   limiter, a nil element of its list, or an index of an upstream or a client out of range.
--   Each loop is structural recursion, over a list or over the number of its rounds: that of the
--   upstreams for the two loops of Next, and two for the attempts of handleConnect and of
--   forwardRequest, of which the second never goes on. The loop of readConnectStatus over the header's
--   lines has one round more than the reader has parts of lines, and each round takes at least one.
--
-- What is not modelled.
--   Duration's UnmarshalYAML, cmd/go_proxy_mux/main.go, closeIdleConnections, closeWrite and the log
--   lines. The bytes that a tunnel or a response's body passes on are io.Copy's; what a copy comes to
--   is given. In DialContext and in dialConnect the closing of the connection by a cancellation that
--   comes while they run is seen only through what the reads, the writes and the context then give,
--   and so is, in a relay, the closing of the pair by the idle timer, by closeAll or by the client's
--   context. handleConnect and forwardRequest are given what dialConnect and copyHTTPResponse come to,
--   which Connect/Dial/Handled fills in for dialConnect;
--   the handler of a tunnel begins where handleConnect answers `relayed`.
pub mod Prelude
pub mod Net
pub mod Config
pub mod Balancer
pub mod Limits
pub mod AuthLimit
pub mod Socks
pub mod Connect
pub mod Headers
pub mod Auth
pub mod Forward
pub mod Serve
pub mod Tunnel
pub mod Body
pub mod Running
