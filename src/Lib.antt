-- ===== src/Lib.antt =====
-- ai-coworker: a service that takes events from chat and code-hosting channels, keeps them as tasks of
-- conversation threads in PostgreSQL, and has a pool of workers that classify each task, run it with
-- an executor and answer through the channel.
--
-- The parts and where they are modelled:
-- - Domain: the data that the parts share (internal/domain).
-- - Store: the tables and every statement on them (internal/store/postgres.go). Store/Tasks has the
--   queue: ClaimNextTask, ClaimPendingTasks, UpdateTask and CreateTask; Store/Threads the threads and
--   the messages; Store/AdapterState the key-value rows; Store/Migrations the run of Migrate. Each
--   statement is one atomic operation on the tables; a `Locks` says which advisory and row locks
--   concurrent transactions hold. Store/Snapshot has a ClaimNextTask that reads its conditions from an
--   earlier table, and Store/Lease the abstract table of leases, one worker at most for a thread.
-- - Engine/World: what a run acts on. Each call of the store is a step; before it the others may have
--   changed the tables (`Env.others`), and it may fail, before or after its statement took effect
--   (`Fate`). Time, fresh ids and cancellation are read by the number of the step.
-- - Engine/Router: HandleEvent and the adapters by name (internal/engine/router.go).
-- - Engine/Intent: the classifier (internal/engine/intent.go).
-- - Engine/Reply: the merged prompt of several review comments and the reading of the answer, with the
--   regular expression of the headings as a scanner (internal/engine/worker.go).
-- - Engine/Worker: processTask with its absorption of review tasks (Process), the routing of responses
--   (Respond) and the loop of a worker (Loop). Rely, Safety and Guarantee carry the proofs of Contract:
--   what the others may do between two calls, and what the worker does in turn. Finish has how
--   a processed task ends, and Clock that no action takes the number of the step back, which
--   Stops uses.
-- - Adapter: the references of the three channels. GitHub has who is heard (Payloads), the webhook and its handlers, the pages of
--   ListReviewComments and the replies (internal/adapter/github/github.go), Slack the mentions
--   (internal/adapter/slack). GoogleDocs (internal/adapter/googledocs) has the polling of changes
--   (Changes), the check of one document (Check) with its pages of comments (Pages), which comments
--   count (Comments), their numbering and the markers in the document (Markers), the context that is
--   cut to a limit (Context, Size, Limits) and the watch with its renewal (Watch).
-- - Sandbox: the request for a sandbox (internal/sandbox) and the two runtimes that serve it. In Docker
--   (internal/sandbox/docker) a run acts on the containers and paths of the host, in Kubernetes
--   (internal/sandbox/kubernetes) on the jobs and secrets of the cluster; what the services answer
--   is a record of answers, the removals' included: their errors are ignored, as in the code, and what
--   could not be removed stays. Docker/Tar is the extraction of a skill image, Kubernetes/Build makes the
--   secret and the job.
-- - Llm: what the model providers ask of their services (internal/llm).
-- - Command: what the configuration chooses (cmd/ai-coworker/main.go).
-- - Vcs: the registry of providers (internal/vcs/vcs.go) and the GitHub one (internal/vcs/github).
-- - Executor: the executors (internal/executor).
-- - Config: the keys of environment variables (Environment, Keys), the defaults and the validation
--   (internal/config/config.go).
-- - Prelude: the helpers they share; a text is a list of code points, and a map an association list.
--
-- The router writes tasks that the workers claim; an adapter's batch goes to the router, and the
-- reference that it carries comes back to the adapter with the response.
--
-- Outside the model, as arguments: the language model, the clients of the services, of Docker and of
-- Kubernetes, the operating system, URL parsing, `path/filepath`, `strconv.ParseFloat`, the parser of
-- Kubernetes quantities, Go's Unicode tables above ASCII, the verb %q, and the order in which Go
-- ranges over a map.
--
-- Bounds: the loop of a worker has no bound of its own and is given a number of rounds, and
-- Engine/Worker/Stops says how many are enough. The pages of Google Docs are bounded by the setting
-- maxPaginationPages, as in the code. The pages of ListReviewComments have no bound in the code: they
-- are read with one, and Adapter/GitHub/Webhook says which is enough. Every other function is
-- total by structural recursion. The lengths and positions of a text count code points, which are
-- bytes where the text is ASCII.
--
-- Not modelled: goroutines, sockets, HTTP servers and timers, so neither the loop that renews the watch
-- nor notifications that are processed at the same time, and no time-outs; the interleaving inside
-- one statement of PostgreSQL, but for the snapshot of a claim; the links of the real file system,
-- so that what is said of the extraction of an archive is about names; the reading and
-- merging of the configuration file and of the environment; the constructors that make the services' clients.
pub mod Prelude
pub mod Domain
pub mod Config
pub mod Store
pub mod Engine
pub mod Adapter
pub mod Vcs
pub mod Sandbox
pub mod Llm
pub mod Executor
pub mod Command
