-- ===== src/Lib.antt =====
-- Sealtun exposes a local service through a Sealos cloud: a server pod takes public traffic, checks
-- it against the tunnel's access policy, and forwards it through a tunnel to the client on the user's
-- machine, which spreads it over local ports by a table of path prefixes. This library models the
-- logic of the packages that decide about a request, and of those that keep a tunnel's objects in the cluster.
--
-- Parts, and the files that model them:
--   Protocol: pkg/protocol/protocol.go, the names of tunnel protocols.
--   Routes: pkg/routes/routes.go, the tables of path prefixes; MatchRoute is `match_route`.
--   AccessPolicy: pkg/accesspolicy/access_policy.go. Network has the IP rules with their cache of
--     matchers, Client the address of a client, RateSpec and RateLimiter the rate limits, Tokens the
--     bearer and temporary tokens, Validation the checks on a whole policy.
--   PublicAuth: pkg/publicauth/basic.go, basic auth credentials.
--   Tunnel: pkg/tunnel. RequestLog is request_log.go; of server.go, Audit has the ring of audit
--     events, BasicCache the cache of accepted headers (Handlers lets the
--     accesses of many requests to it interleave), StatusRecorder the response writer, and
--     Traffic `handlePublicTraffic`, in two halves, `arrive` and `finish`, with the reverse proxy
--     between them; Redirect is rewriteRedirectLocation of route_forward.go. Traffic/Flights lets these
--     halves of many requests interleave, and breaks off those whose reverse proxy panics.
--   Session: pkg/session/session.go, the writing of session files; Write is a call of Save, Update or
--     UpdateAtomic.
--   Kubernetes: pkg/k8s/client.go and types.go. Cluster has the objects of a namespace and the calls that
--     read and write them, Cleanup the deletion of tunnels (CleanupTunnel, CleanupManaged), Hosts the host names,
--     Resources, Desired and UpToDate the objects that a tunnel is to have and their comparison with those
--     that are there, Apply the creation or update of each and its reverse, Work and Ensure the whole of
--     EnsureTunnelWithOptions with its rollback and of
--     ConfigureCustomDomain, Scale pausing, resuming and changing resources.
--   Prelude, Text, Assoc and Http are what these share: tests, lists, results, the functions of
--     `strings` and `strconv` that are used, maps as association lists, requests.
--   Examples has stand-ins for the parameters, and runs.
--
-- A text is the list of its bytes. A Go function that returns an error returns a `Result`, whose
-- errors are constructors in place of their texts; a nil pointer is `none`. A Go int that the code
-- bounds is a number from zero up; a port is an integer; the audit limit keeps its wrap-around
-- modulo 2^64. A time is a number of nanoseconds, 0 the zero time, and a duration is read only where it
-- is compared with a bound, so subtraction may stop at 0. State under a lock is passed on from call
-- to call, in the order of the lock. All loops are structural but that of `itoa`, which has as much
-- fuel as the number it prints, and divides by ten in each round.
--
-- Parameters stand for code outside the repository: `Net` for addresses of `net`, `Platform` for
-- SHA-256, RFC 3339 times and the query codec, `Hashing` for bcrypt with its laws `IsBcrypt`,
-- `Host` for AES-GCM, JSON and the process that writes session files, `World` for the first three
-- together with `Request.BasicAuth`, `mime.ParseMediaType` and `http.CanonicalHeaderKey`. The API server of Kubernetes is a function
-- that says which calls fail, and `admit`, what it makes of an object that it is given. `Encoding` is JSON and
-- HMAC; the parsers of addresses and quantities are parameters of their own.
--
-- Not modelled: the copying of connections, yamux and websockets, the reverse proxy itself; the
-- listing and deleting of session files, file modes and lock files; daemon files; of Kubernetes, clearing
-- a custom domain, diagnostics and logs, conflicting writers, and writes of which the
-- server reports a failure but which it has done; login, commands and user interface. `strings.ToLower` is modelled on ASCII letters, which
-- is all that the names it is compared with have, and in host names on the two letters that it makes ASCII ones.
pub mod Prelude
pub mod Text
pub mod Assoc
pub mod Http
pub mod AccessPolicy
pub mod Kubernetes
pub mod Protocol
pub mod PublicAuth
pub mod Routes
pub mod Session
pub mod Tunnel
pub mod Examples
