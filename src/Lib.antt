-- ===== src/Lib.antt =====
-- Gortexa: the governance core of a gRPC, HTTP and MCP framework in Go.
--
-- The kernel (kernel/) puts a server together, serves every protocol on one port and shuts it down in
-- order. The error model (apperr/errors.go) turns every error into a mapped status with a message that
-- is safe to show; the chain of interceptors (interceptor/) admits, sheds, breaks and authenticates
-- calls and sends each error through the error model. The MCP part (mcp/) makes tools of the exposed
-- methods of a service, exports them in three formats and answers JSON-RPC by calls over the loopback
-- connection of the kernel, through the chain. The cache (cache/memory.go), the Redis client
-- (internal/resp/) and the health registry (health/health.go) are the services beside them.
--
-- Common: Go's maps, integers and results, and the lemmas on lists that the parts share. A map is an
-- association list that holds a key once; the order of its entries stands for the order of a range
-- loop, which Go leaves open.
-- Apperr: apperr/errors.go. `register` is Registry.Register with its panics as `none`, `resolve`,
-- `to_grpc_status`, `to_http` and `to_mcp` are the functions of these names. status.FromError and
-- WithDetails of grpc-go are parameters, the record Grpc.
-- Auth.KeySet: auth/jwks.go, with base64, JSON and the curve as the parameters of Decoders. A call of
-- KeySet.key is two steps, `begin` and `land`, with the fetch between them.
-- Auth.Verifier: auth/auth.go and auth/authenticator.go, with the parsing of a token as a parameter.
-- Interceptor.Breaker: interceptor/circuitbreaker.go. `allow` and `record_outcome` are the two
-- critical sections of a breaker, `Unary` the map of breakers and the interceptors, `System` the
-- interleaving of concurrent calls. Moments are natural numbers and generations wrap at 2^64: what
-- needs distinct generations asks for fewer than 2^64 episodes.
-- Interceptor.LoadShedding: interceptor/loadshedding.go, with the comparison of floats as a parameter.
-- Interceptor.RateLimit: interceptor/ratelimit.go, with the token bucket of golang.org/x/time/rate, the
-- hash of xxhash and the addresses of net/netip as parameters. Each range over a map takes the order
-- in which the runtime visits it.
-- Interceptor.Chain: interceptor/chain.go, and Recovery and AuthWith of recovery.go and auth.go.
-- Cache: cache/memory.go. The janitor's goroutine is the step `sweep`.
-- Cli.Names: cmd/gortexa/internal/cli/names.go, the names that the generator of projects accepts.
-- Config: the validation of config/config.go, against the verifier of Auth.
-- Health: health/health.go. A check is a function of the moment at which it runs, `none` where it
-- panics. Watchers: the atomic Adds and the locked sections of acquireWatcher and of its release are
-- steps, and each stream has a stage.
-- HttpLimits: internal/httplimits/httplimits.go, what both HTTP surfaces test.
-- Interceptor.RequestId: interceptor/requestid.go.
-- Kernel.Options: the options of New in kernel/app.go and kernel/admin.go, and its refusals.
-- Kernel.Lifecycle: Shutdown and Loopback of kernel/app.go as steps that interleave with the serving
-- of the secondary listeners and with the deadline of its context: a step that waits for a server
-- says whether that server is idle, and goes on past the deadline even if it is not. The counts of connections that were made and that are open are the only
-- state that the code does not keep.
-- Kernel.Mux: kernel/mux.go and the readiness endpoint of kernel/app.go.
-- Mcp.Masker: mcp/masker.go. Parsing and printing JSON and lower-casing are parameters.
-- Mcp.Schema: the schemas of mcp/ir.go. A message is found by its name, and the depth that is left
-- counts down from maxSchemaDepth, so the walk ends by itself.
-- Mcp.Tools: ValidateTool and BuildIR of mcp/ir.go. Mcp.Downgrade: mcp/downgrade.go.
-- Mcp.Bridge: mcp/bridge.go. Request is the shape of a JSON-RPC request, Call dispatch and tools/call,
-- Post the HTTP handler with batches and media types, Build the catalogue, Headers what is forwarded.
-- JSON, media types and addresses are the parameters of the record Wire, protobuf and the loopback
-- connection those of Backend.
-- Resp: internal/resp/resp.go (Number, Codec) and internal/resp/client.go (Pool). Bytes are natural
-- numbers. `read_more` runs on fuel, the number of bytes that are left, each round taking one at
-- least; `decimal` writes up to nineteen digits, as many as an int64 has. `Pool.Tokens` interleaves
-- the steps of concurrent commands.
--
-- Not modelled: metrics, logs and traces; sockets, timers and goroutines but for the steps above; the
-- parsing and the signing of JWT, the message queue, the loading of configuration, the gateway over net/http, the
-- generator of projects but for its names, and generated code.
pub mod Common
pub mod Apperr
pub mod Auth
pub mod Cache
pub mod Cli
pub mod Config
pub mod Health
pub mod HttpLimits
pub mod Interceptor
pub mod Kernel
pub mod Mcp
pub mod Resp
