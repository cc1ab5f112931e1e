-- ===== src/Lib.antt =====
-- Verification library of go-mcp-gateway, a gateway that routes coding tasks from MCP clients to
-- local and remote language models, keeps their token budgets, and writes what a model answers into
-- the worktree of a task.
--
-- The parts and the files that model them:
--   internal/router       Router, Router/Classify, Router/Interpret: which tier serves a task, what
--                         comes after it when a budget ends or an answer fails, and what a test run
--                         means. `route`, `route_fallback`, `next_tier_up`, `classify` and
--                         `interpret` are Route, RouteFallback, NextTierUp, Classify and Interpret.
--   internal/policy       Policy/Clock, Policy/Bucket, Policy/TierBudget, Policy/Registry: the
--                         sliding windows of a session, the daily budget of a tier, and the registry
--                         of both. A method takes the state and returns the new one with its answer;
--                         every reading of the clock is an argument, in nanoseconds.
--   internal/filewriter   Filewriter/Types, Filewriter/Parser, Filewriter/PathSafe, Filewriter/Files,
--                         Filewriter/Writer, Filewriter/Apply, Filewriter/Executor: the parser of the
--                         output contract, the confinement of paths, the plan of a batch, its
--                         application with rollback, and the retry ladder over all of them.
--                         Filewriter/FilePath is path/filepath on Unix, as far as it is used;
--                         Filewriter/Gitignore and Filewriter/Glob are the rules of .gitignore.
--   internal/remote       Remote, Remote/Retry, Remote/Fallback, Remote/Opus: one exchange with a
--                         provider, the retries after a 429, and the second provider. Remote/Stream is
--                         the reading of a stream (streaming.go), Remote/Resolver the adapters that
--                         the environment allows (resolver.go and the constructors).
--   internal/modelmanager Vram: the memory budget of a model (vram.go). Manager: the one model that is
--                         loaded, the swaps of it, its process and the watcher of that (manager.go,
--                         swap.go, process.go), and the request to it (client.go).
--   internal/lsp          Lsp/Framing: the messages on the pipe. Lsp/Documents: the files that are open.
--                         Lsp/Requests: the requests that wait (session.go). Lsp/Pool: the sessions
--                         and their sweep (manager.go).
--   internal/mcp          Mcp: the tools route_complete, budget_status and rate_status.
--   internal/rest         Rest: the routes, /classify, /implement and /interpret. Serving holds what
--                         both kinds of handlers do around a completion.
--   internal/config       Config: the defaults, the overrides of the environment, Load and Validate,
--                         and what cmd/gateway/main.go passes on to internal/policy.
--   Common                lists, integers, text and dictionaries; Tests holds runs on concrete inputs.
--
-- How they interact: the executor calls the model for a rung of its ladder, parses the answer with
-- the parser and hands the operations to the writer, whose plan resolves each path with the path
-- validator before anything is changed. The router's escalation is the executor's next tier. A handler
-- checks the session, routes, and asks the model manager or a provider; then it charges the session
-- and the tier in the registry of internal/policy.
--
-- Conventions. Text is a list of bytes; an `int` of Go is a signed integer that is wrapped to 64 bits
-- where sums can leave the range. Errors are values without their texts. The operating system is a
-- parameter: what it holds at a path, which call fails, the name of a staging file. A mutex makes a
-- method one step. Loops are recursion on the list they walk; the retry loop recurs on the attempts
-- left, of which there are three after the first, as in the source. Only the printing of a length takes
-- fuel, the number and one, which is enough since each digit divides what is left by ten. White
-- space and the case of letters are those of ASCII, where strings.TrimSpace and strings.ToLower are
-- of Unicode. The token counts of a completion of the resident model are natural numbers.
--
-- Not modelled: HTTP, JSON and the control of processes, the start and the initialisation of
-- language servers and the tools that call them, internal/telemetry and its configuration, the
-- retries over a stream, and the rest of the start-up in cmd. internal/graft is called and is not
-- in the repository: what it finds is an input. `Rest.serve` is what RegisterRoutes adds to the
-- mux; the route /mcp beside it is not in it. A swap of models is one step that records the states
-- it passes through: no other operation comes within it. A process that was killed has ended when
-- the kill returns.
mod Common
pub mod Router
pub mod Policy
pub mod Filewriter
pub mod Remote
pub mod Vram
pub mod Manager
pub mod Lsp
pub mod Config
pub mod Serving
pub mod Mcp
pub mod Rest
pub mod Tests
