-- ===== src/Router/Choice.antt =====
-- internal/router/toolshandler.go: which tools worker gets the calls of a round.
pub mod Pick
pub mod Found
use auxot.Common.{
  ℕ, zero, suc, ◌+◌, ◌-◌, ◌*◌, ◌%◌, ◌^◌, ◌≡◌, Bool, true, false, not, ◌||◌, Option, none, some,
  List, [], ◌∷◌, ◌++◌, map, Text, codes, text_comparable, text_beq, text_ltb, nat_beq, length,
  get_or, keep, ltb, is_some, is_empty, if◌then◌else◌,
}
use auxot.Common.Assoc.{Assoc, lookup, insert, erase, keys}
use auxot.Common.Int.{ℤ, pos, negsuc, ◌-ℤ◌, ltb_ℤ}
use auxot.Protocol.{
  Json, JobMessage, ChatMessage, CompleteMessage, Tool, ToolCall, ToolJobMessage, ToolResultMessage,
  ImagePart, type_job, type_tool_job,
}
use auxot.Queue.Redis.{Redis, contains}
use auxot.Queue.Jobs.{JobQueue, Error, Result, returned, error, enqueue, marshaling}
use auxot.Queue.Tokens.{TokenStream, TokenEvent, EventCodec, publish, set_ttl}
use Prim.Native.Nat.{bit_xor}
use auxot.Router.ToolsState.{
  ToolsConn, JobContext, ToolCallResult, Pending, ToolJobRef, Tools, save_job_context,
  delete_job_context, allowed_tool_defs, stream_ttl_dispatched, stream_ttl_streaming,
  stream_ttl_done,
}

-- sort.Slice by the workers' IDs.
unfoldable pub insert_by_id : ToolsConn → List ToolsConn → List ToolsConn
insert_by_id w [] = w ∷ []
insert_by_id w (v ∷ vs) = if text_ltb v.id w.id then v ∷ insert_by_id w vs else w ∷ v ∷ vs

unfoldable pub sort_by_id : List ToolsConn → List ToolsConn
unfolding insert_by_id
sort_by_id [] = []
sort_by_id (w ∷ ws) = insert_by_id w (sort_by_id ws)

-- hash/fnv's 64-bit FNV-1a.
sum64 : ℕ → Text → ℕ
sum64 h [] = h
sum64 h (b ∷ s) = sum64 (bit_xor h b * 1099511628211 % 2 ^ 64) s

unfoldable pub fnv64a : Text → ℕ
unfolding sum64
fnv64a s = sum64 14695981039346656037 s

unfoldable pub first : List ToolsConn → Option ToolsConn
first [] = none
first (w ∷ ws) = some w

at_index : List ToolsConn → ℕ → Option ToolsConn
at_index [] i = none
at_index (w ∷ ws) zero = some w
at_index (w ∷ ws) (suc i) = at_index ws i

unfoldable pub pick_from_eligible : List ToolsConn → Text → Option ToolsConn
unfolding sort_by_id first at_index
pick_from_eligible eligible thread_id =
    if nat_beq (length eligible) 0
    then none
    else if is_empty thread_id
    then first (sort_by_id eligible)
    else at_index (sort_by_id eligible) (fnv64a thread_id % length eligible)

unfoldable pub values_of : Assoc Text ToolsConn → List ToolsConn
values_of [] = []
values_of ((id, w) ∷ m) = w ∷ values_of m

unfoldable pub advertises : Text → ToolsConn → Bool
advertises tool_name w = if is_empty tool_name then true else contains w.tools tool_name

unfoldable pub pick_tools_worker : Text → Text → Tools → Option ToolsConn
unfolding values_of advertises
pick_tools_worker tool_name thread_id h =
    pick_from_eligible (keep (advertises tool_name) (values_of h.tools_workers)) thread_id

covers_all : List Text → ToolsConn → Bool
covers_all [] w = true
covers_all (name ∷ names) w = if contains w.tools name then covers_all names w else false

covers_any : List Text → ToolsConn → Bool
covers_any [] w = false
covers_any (name ∷ names) w = if contains w.tools name then true else covers_any names w

covers_some : List Text → ToolsConn → Bool
covers_some names w = if covers_all names w then false else covers_any names w

-- `tool_names` are distinct.
unfoldable pub pick_tools_worker_all : List Text → Text → Tools → Option ToolsConn
unfolding covers_all covers_any covers_some values_of
pick_tools_worker_all [] thread_id h = pick_tools_worker [] thread_id h
pick_tools_worker_all (name ∷ []) thread_id h = pick_tools_worker name thread_id h
pick_tools_worker_all (name ∷ next ∷ names) thread_id h =
    let workers : List ToolsConn = values_of h.tools_workers in
    let all_cover : List ToolsConn = keep (covers_all (name ∷ next ∷ names)) workers in
    let any_cover : List ToolsConn = keep (covers_some (name ∷ next ∷ names)) workers in
    if ltb 0 (length all_cover)
    then pick_from_eligible all_cover thread_id
    else if ltb 0 (length any_cover)
    then pick_from_eligible any_cover thread_id
    else none

-- The distinct tool names of a round that are not empty.
unfoldable pub distinct_names : List ToolCall → List Text
distinct_names [] = []
distinct_names (tc ∷ calls) =
    let rest = distinct_names calls in
    if is_empty tc.function.name
    then rest
    else if contains rest tc.function.name
    then rest
    else tc.function.name ∷ rest
