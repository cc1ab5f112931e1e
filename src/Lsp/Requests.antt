-- ===== src/Lsp/Requests.antt =====
-- The requests of internal/lsp/session.go that wait for an answer: `request` and the routing of
-- `readLoop`. An id is a counter of 64 bits in the source, and does not wrap here.
pub mod Answers
use go_mcp_gateway.Common.{
  ℕ, zero, suc, ◌==◌, Bool, true, false, Option, none, some, List, [], ◌∷◌, if◌then◌else◌,
}
use go_mcp_gateway.Common.Int.{ℤ, pos, negsuc}
use go_mcp_gateway.Common.Text.{Str}
use go_mcp_gateway.Lsp.Framing.{JsonRpcResponse}

-- A request that waits: its id, and what its channel, which has one place, holds.
pub record Waiting : Type 0 where
  pub id : ℕ
  pub answer : Option JsonRpcResponse

-- `nextID`, and the map of the pending requests.
pub record Client : Type 0 where
  pub next_id : ℕ
  pub pending : List Waiting

unfoldable pub find : ℕ → List Waiting → Option Waiting
find id [] = none
find id (x ∷ xs) = if x.id == id then some x else find id xs

unfoldable pub remove : ℕ → List Waiting → List Waiting
remove id [] = []
remove id (x ∷ xs) = let rest = remove id xs in if x.id == id then rest else x ∷ rest

unfoldable pub put : ℕ → JsonRpcResponse → List Waiting → List Waiting
put id m [] = []
put id m (x ∷ xs) =
    let rest = put id m xs in
    if x.id == id then record { id = x.id; answer = some m } ∷ rest else x ∷ rest

-- The start of `request`: its id, and the place for its answer.
unfoldable pub begin : Client → Client × ℕ
begin c = (
  record {
    next_id = suc c.next_id;
    pending = record { id = suc c.next_id; answer = none } ∷ c.pending;
  },
  suc c.next_id,
)

-- `stuck`: the channel is full, and the loop that reads waits.
pub data Routed : Type 0 where
  delivered : Routed
  dropped : Routed
  stuck : Routed

abbrev pub fill : ℕ → JsonRpcResponse → Option JsonRpcResponse → Client → Client × Routed
fill id m none c = (record c { pending = put id m c.pending }, delivered)
fill id m (some a) c = (c, stuck)

abbrev pub place : ℕ → JsonRpcResponse → Option Waiting → Client → Client × Routed
place id m none c = (c, dropped)
place id m (some x) c = fill id m x.answer c

abbrev pub route_to : ℤ → JsonRpcResponse → Client → Client × Routed
route_to (negsuc n) m c = (c, dropped)
route_to (pos zero) m c = (c, dropped)
route_to (pos (suc n)) m c = place (suc n) m (find (suc n) c.pending) c

-- One round of `readLoop`, with the message that was read.
unfoldable pub route : JsonRpcResponse → Client → Client × Routed
unfolding find put
route m c = route_to m.id m c

-- What wakes a request, the answer aside.
pub data Wake : Type 0 where
  answer timed_out context_ended crashed not_sent : Wake

pub data Returned : Type 0 where
  result : Str → Returned
  rpc_error : ℤ → Str → Returned
  request_timeout context_error process_crashed send_error : Returned

abbrev pub of_response : JsonRpcResponse → Option (ℤ × Str) → Returned
of_response m none = result m.result
of_response m (some (code, text)) = rpc_error code text

abbrev pub of_answer : Option JsonRpcResponse → Option Returned
of_answer none = none
of_answer (some m) = some (of_response m m.error)

-- The answer can only wake a request that has one.
abbrev pub returned : Wake → Option Waiting → Option Returned
returned timed_out w = some request_timeout
returned context_ended w = some context_error
returned crashed w = some process_crashed
returned not_sent w = some send_error
returned answer none = none
returned answer (some w) = of_answer w.answer

abbrev pub end_with : ℕ → Option Returned → Client → Client × Option Returned
end_with id none c = (c, none)
end_with id (some r) c = (record c { pending = remove id c.pending }, some r)

-- The end of `request`: what it returns, with its entry deleted. `none`: it goes on waiting.
unfoldable pub finish : ℕ → Wake → Client → Client × Option Returned
unfolding find remove
finish id wake c = end_with id (returned wake (find id c.pending)) c
