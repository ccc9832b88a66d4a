-- ===== src/Lib.antt =====
-- The Kubernetes remediation agent: what it does to the cluster, to its deduplication store and to
-- the model's budget.
--
-- The agent (cmd/agent) polls the cluster's warning events. For an event that is in scope, new, and
-- whose signal is not muted, it builds a prompt (internal/policy), asks a language model for a
-- decision (internal/model), pins the decision to the event's object, and executes it: behind the
-- guards of internal/policy, with the operations of internal/kube, and with a newest image tag from
-- internal/registry where one is missing. internal/dedup remembers events, signals and attempts;
-- internal/config holds the settings. internal/webui is the administrators' dashboard beside the loop:
-- a throttle per client address, signed session cookies, and the handlers behind them. The model is
-- asked through internal/ollama, and internal/notify reports the decisions by mail.
--
-- Files:
--   Prelude, Result, Text   native numbers, integers, byte strings, Go maps, errors, strings, strconv
--   Model                   internal/model/model.go: actions, severities, decisions, float64
--   Cluster                 the parts of the API objects that the agent reads and writes
--   Effects                 programs of calls (API server, registry, model, clock, reports);
--                           Contract: what every run may call; Spending: how often a run asks the model
--   Policy                  internal/policy/policy.go: the guards, the image pattern, the prompt
--   Dedup                   internal/dedup/dedup.go: the Store interface and MemoryStore; Contract is what
--                           the loop relies on; Redis is redis.go with factory.go
--   Kube                    internal/kube/kube.go: one module per operation; Reads, Writes: their rules
--   Registry                internal/registry/registry.go: ParseRef, the order of versions, PickNewest
--   Config                  internal/config/config.go: the settings that are read; Readers and Load are LoadFromEnv
--   Agent                   cmd/agent/main.go: Execute is executeDecision with Escalation and Memory;
--                           Signals and Poll are the body of runLoopWithStore
--   WebUi                   internal/webui: Throttle is ratelimit.go, Session the cookies of auth.go, Login the
--                           handlers of login.go and auth.go and the routes of server.go, Decisions the
--                           ring of decisions.go with its mirror in Redis, ConfigOps
--                           the forms of configops.go and their handlers
--   Ollama                  internal/ollama/client.go: Decide with its retries; Content cleans an answer
--   Notify                  internal/notify/notify.go: the notifier and its dispatchers; Report is the mail's text
--   Retain                  maps with distinct keys and the entries that a loop with delete leaves
--   Tests                   the theorems on concrete inputs
--
-- Names are the source's in snake case (mutateDeployment is mutate_deployment). A function that
-- talks to its environment is a program that waits for answers; a rule about all branches of a
-- program holds whatever the environment answers and whatever other clients do in between. The
-- store is explicit state behind the record Store. Errors are values with the kind that
-- apierrors tests; none is Go's nil error.
--
-- Parameters: the functions of apimachinery's quantities and client-go's retry loop
-- (Kube.External), with the retry loop's documented behaviour as the hypothesis RetryLaw; the
-- hash, the code and the base64 encoding of cookies (WebUi.Session), with the decoding law
-- Base64Law; Redis and JSON (WebUi.Decisions), with RedisLaw; the server of Dedup.Redis, with
-- RedisServerLaw, which speaks of windows of whole seconds that are not 0; strconv.ParseFloat (Config.Readers); the network, limiter and decoders of Decide
-- (Ollama.Transport); the API server behind the forms (WebUi.ConfigOps.Handlers). Decide calls
-- itself and runs on fuel, of which two is enough; every other loop follows a list or a number
-- that the code bounds.
--
-- Not modelled: logs, the HTTP of the registry, the JSON schema sent to the model, the SMTP
-- protocol, metrics exposition, leader election, the informer, and the dashboard's pages behind
-- the login. Letters and spaces are ASCII where Go maps Unicode. Go visits a map in no fixed
-- order; here the order is the list's. Counts and windows of the configuration are not negative
-- here, and their numbers of seconds, as nanoseconds, do not overflow an int64. A login request is
-- one step, so requests that overlap between the throttle's test and its update are left out.
pub mod Prelude
pub mod Result
pub mod Retain
pub mod Notify
pub mod Ollama
pub mod WebUi
pub mod Text
pub mod Model
pub mod Cluster
pub mod Effects
pub mod Policy
pub mod Dedup
pub mod Kube
pub mod Registry
pub mod Config
pub mod Agent
pub mod Tests
