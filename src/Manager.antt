-- ===== src/Manager.antt =====
-- internal/modelmanager: manager.go, swap.go, process.go and the request of client.go. The operating
-- system is the list of the processes that run; what it answers is an argument of each operation.
-- The mutexes make a read or a write of the resident one step.
pub mod Swap
pub mod Moments
pub mod Single
pub mod Stale
pub mod Requests
use go_mcp_gateway.Common.{
  ℕ, ◌+◌, ◌*◌, ◌==◌, ltb, Bool, true, false, not, ◌&&◌, Option, none, some, String, List, [], ◌∷◌,
  ◌++◌, name_eq, if◌then◌else◌,
}
use go_mcp_gateway.Common.Dict
use go_mcp_gateway.Common.Dict.{Dict}
use go_mcp_gateway.Policy.Clock.{Time, second}
use go_mcp_gateway.Vram.{VramBudget, compute_budget, layer_split_args}

-- A port is the text that `%d` prints for it.
pub record ModelConfig : Type 0 where
  pub path : String
  pub vram_requirement_mib : ℕ
  pub extra_args : List String
  pub port : String

pub record ManagerConfig : Type 0 where
  pub health_timeout_sec : ℕ
  pub total_vram_mib : ℕ
  pub reserved_vram_mib : ℕ
  pub models : Dict ModelConfig

pub record ResidentState : Type 0 where
  pub tier : String
  pub model_path : String
  pub port : String
  pub pid : ℕ
  pub started_at : Time
  pub api_key : String
  pub swapping : Bool

-- The goroutine of `watchProcess`, which waits for the end of a process.
pub record Watcher : Type 0 where
  pub pid : ℕ
  pub tier : String

-- A `llama-server` that was started, with its arguments.
pub record Process : Type 0 where
  pub pid : ℕ
  pub args : List String

-- The manager, the one place of its channel of requests, and the processes it started that run.
pub record State : Type 0 where
  pub resident : Option ResidentState
  pub queue : Option String
  pub live : List Process
  pub watchers : List Watcher

abbrev pub set_resident : State → Option ResidentState → State
set_resident s r = record s { resident = r }

-- What `pollHealth` sees in one round: the clock at its head, whether the answer is a 200, and
-- whether the context ends in the pause after it.
pub record Poll : Type 0 where
  pub at : Time
  pub healthy : Bool
  pub cancelled : Bool

pub data Health : Type 0 where
  up timed_out context_ended : Health

-- The rounds that begin before the deadline; behind the last one listed the clock is past it.
unfoldable pub poll_health : Time → List Poll → Health
poll_health deadline [] = timed_out
poll_health deadline (p ∷ polls) =
    let rest = poll_health deadline polls in
    if not (ltb p.at deadline)
    then timed_out
    else if p.healthy
    then up
    else if p.cancelled
    then context_ended
    else rest

unfoldable pub deadline_of : Time → ℕ → Time
deadline_of start timeout_sec = start + timeout_sec * second

pub data SwapError : Type 0 where
  unknown_tier : String → SwapError
  model_too_large : SwapError
  no_api_key : SwapError
  not_started : SwapError
  unhealthy : String → SwapError

pub data SwapResult : Type 0 where
  swapped : ResidentState → SwapResult
  failed : SwapError → SwapResult

unfoldable pub without : ℕ → List Process → List Process
without pid [] = []
without pid (p ∷ ps) = let rest = without pid ps in if p.pid == pid then rest else p ∷ rest

-- `killProcess` sends SIGTERM, waits, and sends SIGKILL when the time is over; it returns no error.
-- The process is taken to have ended then.
unfoldable pub kill_process : ℕ → State → State
unfolding without
kill_process pid s = record s { live = without pid s.live }

unfoldable pub build_args : ModelConfig → String → List String
build_args model api_key =
    ("--model" ∷ model.path ∷ "--port" ∷ model.port ∷ "--alias" ∷ model.path ∷ "--api-key" ∷ api_key
      ∷ [])
    ++ model.extra_args

-- The split of the layers stands in front of the model's own arguments.
unfoldable pub with_split : VramBudget → ModelConfig → ModelConfig
with_split budget model =
    if budget.needs_layer_split
    then record model { extra_args = layer_split_args budget ++ model.extra_args }
    else model

abbrev mark : Option ResidentState → Option ResidentState
mark none = none
mark (some r) = some (record r { swapping = true })

unfoldable pub mark_swapping : State → State
mark_swapping s = record s { resident = mark s.resident }

abbrev stop : Option ResidentState → State → State
stop none s = s
stop (some r) s = set_resident (kill_process r.pid s) none

-- The branch that stops the resident, if there is one.
unfoldable pub stop_resident : State → State
unfolding kill_process
stop_resident s = stop s.resident s

-- What the world answers during a swap: the random key, the id of the started process, the health of
-- its server, and the clock at the end.
pub record Outcome : Type 0 where
  pub api_key : Option String
  pub pid : Option ℕ
  pub polled_from : Time
  pub polls : List Poll
  pub now : Time

abbrev pub new_resident : String → ModelConfig → String → ℕ → Time → ResidentState
new_resident tier model api_key pid now = record {
  tier = tier;
  model_path = model.path;
  port = model.port;
  pid = pid;
  started_at = now;
  api_key = api_key;
  swapping = false;
}

-- The end of `doSwap`, with the process running.
abbrev settle : String → ModelConfig → String → ℕ → Time → Health → State → State × SwapResult
settle tier model api_key pid now up s =
    let r = new_resident tier model api_key pid now in
    (
      record s { resident = some r; watchers = record { pid = pid; tier = tier } ∷ s.watchers },
      swapped r,
    )
settle tier model api_key pid now _ s =
    (set_resident (kill_process pid s) none, failed (unhealthy tier))

-- How a swap goes: the states on the way, which the rest of the gateway can see while it waits, and the
-- state it ends in with its result.
pub record Run : Type 0 where
  pub between : List State
  pub ends : State × SwapResult

-- `startProcess` and what follows it.
unfoldable pub launch : ManagerConfig → String → ModelConfig → String → Outcome → State → Run
unfolding poll_health deadline_of kill_process build_args
launch cfg tier model api_key w s = elim (w.pid) [
  | none ↦ record { between = []; ends = (s, failed not_started) }
  | some pid ↦
      let begun = record s {
        live = record { pid = pid; args = build_args model api_key } ∷ s.live;
      } in
      record {
        between = begun ∷ [];
        ends =
            settle tier model api_key pid w.now
              (poll_health (deadline_of w.polled_from cfg.health_timeout_sec) w.polls) begun;
      }
]

-- `doSwap` behind its two checks.
unfoldable pub swap_to : ManagerConfig → String → ModelConfig → VramBudget → Outcome → State → Run
unfolding stop_resident mark_swapping with_split launch
swap_to cfg tier model budget w s =
    let marked = mark_swapping s in
    let stopped = stop_resident marked in
    elim (w.api_key) [
      | none ↦ record { between = marked ∷ stopped ∷ []; ends = (stopped, failed no_api_key) }
      | some api_key ↦
          let run = launch cfg tier (with_split budget model) api_key w stopped in
          record { between = marked ∷ stopped ∷ run.between; ends = run.ends }
    ]

unfoldable pub run_swap : ManagerConfig → String → Outcome → State → Run
unfolding swap_to compute_budget
run_swap cfg tier w s = elim (Dict.lookup tier cfg.models) [
  | none ↦ record { between = []; ends = (s, failed (unknown_tier tier)) }
  | some model ↦
      elim (compute_budget cfg.total_vram_mib cfg.reserved_vram_mib model.vram_requirement_mib) [
        | none ↦ record { between = []; ends = (s, failed model_too_large) }
        | some budget ↦ swap_to cfg tier model budget w s
      ]
]

unfoldable pub do_swap : ManagerConfig → String → Outcome → State → State × SwapResult
unfolding run_swap
do_swap cfg tier w s = (run_swap cfg tier w s).ends

-- The first half of `EnsureLoaded`: the answer that does not wait, or a place in the queue.
pub data Ensured : Type 0 where
  loaded : ResidentState → Ensured
  queued : Ensured
  queue_full : Ensured

abbrev pub enqueue : Option String → String → State → State × Ensured
enqueue none tier s = (record s { queue = some tier }, queued)
enqueue (some other) tier s = (s, queue_full)

abbrev is_resident : ResidentState → String → Bool
is_resident r tier = name_eq r.tier tier && not r.swapping

abbrev pub ensure_from : Option ResidentState → String → State → State × Ensured
ensure_from none tier s = enqueue s.queue tier s
ensure_from (some r) tier s = if is_resident r tier then (s, loaded r) else enqueue s.queue tier s

unfoldable pub ensure_loaded : String → State → State × Ensured
ensure_loaded tier s = ensure_from s.resident tier s

-- One round of `swapProcessor`; nothing to do if the queue is empty. The model of `ctx.Done` in the
-- second half of `EnsureLoaded` is that nobody reads the result.
abbrev pub serve : Option String → ManagerConfig → Outcome → State → State × Option SwapResult
serve none cfg w s = (s, none)
serve (some tier) cfg w s =
    let (t, r) = do_swap cfg tier w (record s { queue = none }) in (t, some r)

unfoldable pub process_swap : ManagerConfig → Outcome → State → State × Option SwapResult
unfolding do_swap
process_swap cfg w s = serve s.queue cfg w s

abbrev pub passed : Option String → ManagerConfig → Outcome → State → List State
passed none cfg w s = []
passed (some tier) cfg w s = (run_swap cfg tier w (record s { queue = none })).between

-- The states that a round of `swapProcessor` passes through before it ends.
unfoldable pub moments : ManagerConfig → Outcome → State → List State
unfolding run_swap
moments cfg w s = passed s.queue cfg w s

abbrev pub clear : String → Option ResidentState → Option ResidentState
clear tier none = none
clear tier (some r) = if name_eq r.tier tier then none else some r

unfoldable pub forget : Watcher → List Watcher → List Watcher
forget w [] = []
forget w (v ∷ vs) = let rest = forget w vs in if v.pid == w.pid then rest else v ∷ rest

-- `watchProcess` when the wait for its process is over: the tier is compared, not the process.
unfoldable pub watch_process : Watcher → State → State
unfolding forget
watch_process w s = record s { resident = clear w.tier s.resident; watchers = forget w s.watchers }

-- A process ends by itself.
unfoldable pub process_exit : ℕ → State → State
unfolding without
process_exit pid s = record s { live = without pid s.live }

-- `Shutdown`; the resident stays noted.
unfoldable pub shutdown : State → State
unfolding kill_process
shutdown s = elim (s.resident) [ none ↦ s | some r ↦ kill_process r.pid s ]

unfoldable pub new : State
new = record { resident = none; queue = none; live = []; watchers = [] }

-- The body of an answer: the texts of its choices, and the tokens used.
pub record Completion : Type 0 where
  pub choices : List String
  pub prompt_tokens : ℕ
  pub completion_tokens : ℕ
  pub total_tokens : ℕ

-- What comes of a request, as in internal/remote.
pub data Call : Type 0 where
  not_encoded not_built not_sent : Call
  answered : ℕ → Option Completion → Call

pub data CompletionError : Type 0 where
  no_resident not_marshalled not_requested not_delivered not_decoded : CompletionError
  bad_status : ℕ → CompletionError

pub data Completed : Type 0 where
  completed : Completion → Completed
  refused : CompletionError → Completed

-- The measurements that are recorded, each with the tier of the resident.
pub data Metric : Type 0 where
  operation_duration : String → Metric
  input_tokens : String → ℕ → Metric
  output_tokens : String → ℕ → Metric

abbrev received : String → ℕ → Option Completion → Completed × List Metric
received tier status none =
    if status == 200 then (refused not_decoded, []) else (refused (bad_status status), [])
received tier status (some c) =
    if status == 200
    then (
      completed c,
      operation_duration tier
          ∷ input_tokens tier c.prompt_tokens
          ∷ output_tokens tier c.completion_tokens
          ∷ [],
    )
    else (refused (bad_status status), [])

abbrev exchange : ResidentState → Call → Completed × List Metric
exchange r not_encoded = (refused not_marshalled, [])
exchange r not_built = (refused not_requested, [])
exchange r not_sent = (refused not_delivered, operation_duration r.tier ∷ [])
exchange r (answered status body) = received r.tier status body

-- `Complete`, with the resident at that moment: the request names no tier.
unfoldable pub complete : Option ResidentState → Call → Completed × List Metric
complete none x = (refused no_resident, [])
complete (some r) x = exchange r x
