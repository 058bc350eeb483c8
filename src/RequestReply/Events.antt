-- ===== src/RequestReply/Events.antt =====
-- What happens to the manager of packages/node/src/core/request-reply.ts, and one query by itself.
use pando.Common.{
  ℕ, ◌≡◌, ◌≢◌, true, none, some, List, [], ◌∷◌, ◌++◌, length, includes, leb, ◌==◌, if◌then◌else◌,
}
use pando.Common.Table.{find}
use pando.RequestReply.Manager.{
  PandoRequest, PandoReply, Handler, RequestReplyManager, query_key, resolution_key,
  register_handler, query, publish_fails, time_out, handle_incoming_reply, drain,
  handle_incoming_request,
}

-- what happens to a manager
pub data Event : Type 0 where
  queries : (now id peer type payload timeout max : ℕ) → Event
  fails times_out : ℕ → Event
  receives_reply : PandoReply → Event
  receives_request : (now peer : ℕ) → PandoRequest → Event
  registers : Handler → Event
  drains : Event

abbrev pub step : Event → RequestReplyManager → RequestReplyManager
step (queries now id peer type payload timeout max) m = query now id peer type payload timeout max m
step (fails id) m = publish_fails id m
step (times_out id) m = time_out id m
step (receives_reply r) m = handle_incoming_reply r m
step (receives_request now peer req) m = handle_incoming_request now peer req m
step (registers h) m = register_handler h m
step drains m = drain m

abbrev pub run : List Event → RequestReplyManager → RequestReplyManager
run [] m = m
run (e ∷ es) m = run es (step e m)

-- one query by itself: it collects its replies and is done at most once
pub data Progress : Type 0 where
  waiting done : List PandoReply → Progress

abbrev pub collect : ℕ → List PandoReply → Progress
collect max rs = if leb max (length rs) then done rs else waiting rs

-- a waiting query: its replies, its timeout, a failed publication and the shutdown concern it
abbrev pub wait_step : (id max : ℕ) → Event → List PandoReply → Progress
wait_step id max (queries now j peer type payload timeout limit) rs = waiting rs
wait_step id max (fails j) rs = if id == j then done [] else waiting rs
wait_step id max (times_out j) rs = if id == j then done rs else waiting rs
wait_step id max (receives_reply r) rs =
    if id == r.request_id then collect max (rs ++ r ∷ []) else waiting rs
wait_step id max (receives_request now peer req) rs = waiting rs
wait_step id max (registers h) rs = waiting rs
wait_step id max drains rs = done rs

abbrev pub progress_step : (id max : ℕ) → Event → Progress → Progress
progress_step id max e (waiting rs) = wait_step id max e rs
progress_step id max e (done rs) = done rs

abbrev pub progress : (id max : ℕ) → List Event → Progress → Progress
progress id max [] p = p
progress id max (e ∷ es) p = progress id max es (progress_step id max e p)

-- no event starts a query with this id again
abbrev pub IsFresh : ℕ → List Event → Type 0
IsFresh id [] = Unit
IsFresh id (queries now j peer type payload timeout max ∷ es) = (id ≢ j) × IsFresh id es
IsFresh id (fails j ∷ es) = IsFresh id es
IsFresh id (times_out j ∷ es) = IsFresh id es
IsFresh id (receives_reply r ∷ es) = IsFresh id es
IsFresh id (receives_request now peer req ∷ es) = IsFresh id es
IsFresh id (registers h ∷ es) = IsFresh id es
IsFresh id (drains ∷ es) = IsFresh id es

-- the manager has the query as it is by itself
abbrev pub Shows : (id max : ℕ) → RequestReplyManager → Progress → Type 0
Shows id max m (waiting rs) =
    (find query_key id m.pending_queries
      ≡ some (record { request_id = id; replies = rs; max_replies = max }))
    × ((find resolution_key id m.resolutions ≡ none) × (includes id m.timers ≡ true))
Shows id max m (done rs) =
    (find query_key id m.pending_queries ≡ none)
    × (find resolution_key id m.resolutions ≡ some (record { request_id = id; replies = rs }))
