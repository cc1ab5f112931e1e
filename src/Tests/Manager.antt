-- ===== src/Tests/Manager.antt =====
-- internal/modelmanager on concrete inputs.
use go_mcp_gateway.Common.{◌≡◌, ◌≢◌, refl, ◌⊎◌, true, false, none, some, [], ◌∷◌, All, Has, length}
use go_mcp_gateway.Common.Dict
use go_mcp_gateway.Vram.{compute_budget, hard_ceiling_multiplier, layer_split_args}
use go_mcp_gateway.Manager.{
  ModelConfig, ManagerConfig, ResidentState, Process, Watcher, State, Outcome, swapped, failed,
  unknown_tier, model_too_large, poll_health, deadline_of, without, kill_process, build_args,
  with_split, mark_swapping, stop_resident, new_resident, launch, swap_to, do_swap, ensure_loaded,
  process_swap, watch_process, process_exit, new, Completion, moments, run_swap,
}
use go_mcp_gateway.Manager.Swap.{Alone, Up, Down, IsFitting, do_swap-cases}
use go_mcp_gateway.Manager.Moments.{AtMostOne}
use go_mcp_gateway.Manager.Single.{Reached, started, after, request, swap, exit, Reached-Alone}
use go_mcp_gateway.Manager.Stale.{stale_watch}

abbrev model : ModelConfig
model = record {
  path = "/m";
  vram_requirement_mib = 20000;
  extra_args = "-ngl" ∷ [];
  port = "8081";
}

abbrev config : ManagerConfig
config = record {
  health_timeout_sec = 60;
  total_vram_mib = 16311;
  reserved_vram_mib = 1024;
  models = ("local_qwen", model) ∷ ("local_ornith", model) ∷ [];
}

-- The server answers in its second round.
abbrev outcome : Outcome
outcome = record {
  api_key = some "k";
  pid = some 7;
  polled_from = 10;
  polls =
      record { at = 20; healthy = false; cancelled = false }
      ∷ record { at = 30; healthy = true; cancelled = false }
      ∷ [];
  now = 40;
}

abbrev asked : State
asked = record { resident = none; queue = some "local_qwen"; live = []; watchers = [] }

abbrev qwen : ResidentState
qwen = new_resident "local_qwen" model "k" 7 40

abbrev qwen_process : Process
qwen_process = record {
  pid = 7;
  args =
      "--model" ∷ "/m" ∷ "--port" ∷ "8081" ∷ "--alias" ∷ "/m" ∷ "--api-key" ∷ "k" ∷ "-sm" ∷ "layer"
      ∷ "-ngl" ∷ [];
}

abbrev own_watcher : Watcher
own_watcher = record { pid = 7; tier = "local_qwen" }

abbrev running : State
running = record {
  resident = some qwen;
  queue = none;
  live = qwen_process ∷ [];
  watchers = own_watcher ∷ [];
}

-- The first load of a model that needs a layer split.
first_load : process_swap config outcome asked ≡ (running, some (swapped qwen))
unfolding process_swap do_swap run_swap swap_to launch poll_health deadline_of kill_process without
    build_args with_split mark_swapping stop_resident Dict.lookup compute_budget
    hard_ceiling_multiplier layer_split_args
first_load = refl

do_swap-cases_example :
    let (t, a) = do_swap config "local_qwen" outcome running in
    IsFitting config "local_qwen"
      × (Up config "local_qwen" outcome running t a ⊎ Down config "local_qwen" outcome running t a)
    ⊎ (t ≡ running)
      × ((a ≡ failed (unknown_tier "local_qwen")) × (Dict.lookup "local_qwen" config.models ≡ none)
          ⊎ (a ≡ failed model_too_large)
            × (m : ModelConfig) × (Dict.lookup "local_qwen" config.models ≡ some m)
            × (compute_budget config.total_vram_mib config.reserved_vram_mib m.vram_requirement_mib
                ≡ none))
do_swap-cases_example =
    do_swap-cases config "local_qwen" outcome running (refl, "-sm" ∷ "layer" ∷ "-ngl" ∷ [], refl)

-- A request, its swap, the end of the process, and the watcher that notices.
abbrev ended : State
ended = process_exit 7 (process_swap config outcome (ensure_loaded "local_qwen" new).0).0

ended_watched : Has own_watcher ended.watchers
unfolding process_exit ensure_loaded new process_swap do_swap run_swap swap_to launch poll_health
    deadline_of kill_process without build_args with_split mark_swapping stop_resident Dict.lookup
    compute_budget hard_ceiling_multiplier layer_split_args
ended_watched = ([], [], refl)

nothing_watched :
    All (λ (v : Watcher). v.tier ≢ "local_qwen") (ensure_loaded "local_qwen" new).0.watchers
unfolding ensure_loaded new
nothing_watched = tt

ended_reached : Reached config ended
unfolding ensure_loaded new
ended_reached =
    after
      (after (after started (request "local_qwen" new))
        (swap outcome (ensure_loaded "local_qwen" new).0 nothing_watched))
      (exit 7 (process_swap config outcome (ensure_loaded "local_qwen" new).0).0)

-- Another tier is asked for before that watcher notices.
abbrev asked_again : State
asked_again = (ensure_loaded "local_ornith" ended).0

Reached-Alone_example :
    Alone asked_again.resident asked_again.live × All AtMostOne (moments config outcome asked_again)
Reached-Alone_example =
    Reached-Alone config outcome asked_again (after ended_reached (request "local_ornith" ended))

three_moments : length (moments config outcome asked_again) ≡ 3
unfolding moments process_exit ensure_loaded new process_swap do_swap run_swap swap_to launch
    poll_health deadline_of kill_process without build_args with_split mark_swapping stop_resident
    Dict.lookup compute_budget hard_ceiling_multiplier layer_split_args
three_moments = refl

abbrev second_outcome : Outcome
second_outcome = record outcome { pid = some 8 }

abbrev old_watcher : Watcher
old_watcher = record { pid = 3; tier = "local_qwen" }

abbrev watched_twice : State
watched_twice = record running { watchers = own_watcher ∷ old_watcher ∷ [] }

second_swap :
    (do_swap config "local_qwen" second_outcome (watch_process old_watcher watched_twice)).1
    ≡ swapped (new_resident "local_qwen" model "k" 8 40)
unfolding watch_process do_swap run_swap swap_to launch poll_health deadline_of kill_process without
    build_args with_split mark_swapping stop_resident Dict.lookup compute_budget
    hard_ceiling_multiplier layer_split_args
second_swap = refl

stale_watch_example :
    ((watch_process old_watcher watched_twice).resident ≡ none)
    × ((watch_process old_watcher watched_twice).live ≡ watched_twice.live)
    × (p : Process) × ((do_swap config "local_qwen" second_outcome
          (watch_process old_watcher watched_twice)).0.live
        ≡ p ∷ watched_twice.live)
    × (p.pid ≡ 8)
stale_watch_example =
    stale_watch config watched_twice qwen old_watcher "local_qwen" second_outcome
      (new_resident "local_qwen" model "k" 8 40) refl refl second_swap

abbrev completion : Completion
completion = record {
  choices = "hi" ∷ [];
  prompt_tokens = 3;
  completion_tokens = 4;
  total_tokens = 7;
}
