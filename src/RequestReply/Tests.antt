-- ===== src/RequestReply/Tests.antt =====
-- The theorems on broadcast queries at two queries whose replies are mixed.
use pando.Common.{ℕ, ◌≡◌, refl, true, none, some, List, [], ◌∷◌, ◌++◌, arith}
use pando.RequestReply.Manager.{PandoReply, RequestReplyManager, query}
use pando.RequestReply.Events.{
  Event, run, progress, Shows, queries, times_out, receives_reply, waiting, done,
}
use pando.RequestReply.Refinement.{run-query}
use pando.RequestReply.Resolution.{IsResolved, run-query-times_out}

abbrev manager : RequestReplyManager
manager = record {
  handlers = [];
  pending_queries = [];
  timers = [];
  resolutions = [];
  requests = [];
  replies = [];
  subscribed = true;
}

abbrev reply_to : ℕ → ℕ → PandoReply
reply_to id from = record {
  request_id = id;
  from = from;
  to = 1;
  type = 4;
  payload = some from;
  success = true;
  error = none;
  timestamp = 20;
}

abbrev events : List Event
events =
    receives_reply (reply_to 7 2)
    ∷ queries 12 8 1 4 0 30 1
    ∷ receives_reply (reply_to 8 2)
    ∷ receives_reply (reply_to 7 3)
    ∷ receives_reply (reply_to 7 4)
    ∷ []

run-query_example :
    Shows 7 2 (run events (query 10 7 1 4 0 30 2 manager)) (progress 7 2 events (waiting []))
run-query_example = run-query 10 7 1 4 0 30 2 events manager refl ((λ e. absurd (ground arith)), tt)

-- the query has its first two replies
two_replies : progress 7 2 events (waiting []) ≡ done (reply_to 7 2 ∷ reply_to 7 3 ∷ [])
two_replies = refl

run-query-times_out_example :
    IsResolved 7 9 (run (events ++ times_out 7 ∷ []) (query 10 7 1 4 0 30 9 manager))
run-query-times_out_example =
    run-query-times_out 10 7 1 4 0 30 9 events manager (omega arith) refl
      ((λ e. absurd (ground arith)), tt)
