-- ===== src/RequestReply/Manager.antt =====
-- `RequestReplyManager` (packages/node/src/core/request-reply.ts). Its state has the handlers, the
-- pending queries, the timers that are set, the promises that are resolved, and the messages that
-- were published. Ids, types and payloads are numbers; what a handler answers is a parameter.
use pando.Common.{
  ℕ, Bool, true, false, not, ◌&&◌, ◌||◌, Option, none, some, List, [], ◌∷◌, ◌++◌, length, keep_if,
  includes, leb, ◌==◌, if◌then◌else◌,
}
use pando.Common.Table.{find, put, remove}

-- the peer '*'
abbrev pub everyone : ℕ
everyone = 0

pub record PandoRequest : Type 0 where
  pub request_id : ℕ
  pub from : ℕ
  pub to : ℕ
  pub type : ℕ
  pub payload : ℕ
  pub timeout : ℕ
  pub timestamp : ℕ

pub record PandoReply : Type 0 where
  pub request_id : ℕ
  pub from : ℕ
  pub to : ℕ
  pub type : ℕ
  pub payload : Option ℕ
  pub success : Bool
  pub error : Option ℕ
  pub timestamp : ℕ

-- what a handler's promise does
pub data HandlerResult : Type 0 where
  returns throws : ℕ → HandlerResult

pub record Handler : Type 0 where
  pub type : ℕ
  pub handler : PandoRequest → HandlerResult

pub record PendingQuery : Type 0 where
  pub request_id : ℕ
  pub replies : List PandoReply
  pub max_replies : ℕ

-- a promise of `query` that is resolved
pub record Resolution : Type 0 where
  pub request_id : ℕ
  pub replies : List PandoReply

pub record RequestReplyManager : Type 0 where
  pub handlers : List Handler
  pub pending_queries : List PendingQuery
  pub timers : List ℕ
  pub resolutions : List Resolution
  pub requests : List PandoRequest
  pub replies : List PandoReply
  pub subscribed : Bool

abbrev pub handler_key : Handler → ℕ
handler_key h = h.type

abbrev pub query_key : PendingQuery → ℕ
query_key q = q.request_id

abbrev pub resolution_key : Resolution → ℕ
resolution_key r = r.request_id

unfoldable pub register_handler : Handler → RequestReplyManager → RequestReplyManager
register_handler h m = record m { handlers = put handler_key h m.handlers }

unfoldable pub get_handler : ℕ → RequestReplyManager → Option Handler
get_handler type m = find handler_key type m.handlers

-- `resolve(replies)`: only the first call settles a promise
abbrev pub settle : ℕ → List PandoReply → List Resolution → List Resolution
settle id rs done = elim (find resolution_key id done) [
  | none ↦ done ++ record { request_id = id; replies = rs } ∷ []
  | some r ↦ done
]

-- `clearTimeout(timer)`
abbrev pub clear_timer : ℕ → List ℕ → List ℕ
clear_timer id ts = keep_if (λ t. not (t == id)) ts

-- `query`, up to the answer of the network: the timer, the pending entry and the request
unfoldable pub query :
    (now id peer type payload timeout max : ℕ) → RequestReplyManager → RequestReplyManager
query now id peer type payload timeout max m = record m {
  timers = id ∷ m.timers;
  pending_queries =
      put query_key (record { request_id = id; replies = []; max_replies = max }) m.pending_queries;
  requests =
      m.requests
      ++ record {
        request_id = id;
        from = peer;
        to = everyone;
        type = type;
        payload = payload;
        timeout = timeout;
        timestamp = now;
      }
        ∷ [];
}

-- the publication of the request fails
unfoldable pub publish_fails : ℕ → RequestReplyManager → RequestReplyManager
publish_fails id m = record m {
  pending_queries = remove query_key id m.pending_queries;
  timers = clear_timer id m.timers;
  resolutions = settle id [] m.resolutions;
}

abbrev pub replies_of : Option PendingQuery → List PandoReply
replies_of none = []
replies_of (some q) = q.replies

-- the timer of the query fires, if it is set
unfoldable pub time_out : ℕ → RequestReplyManager → RequestReplyManager
time_out id m =
    if includes id m.timers
    then record m {
      pending_queries = remove query_key id m.pending_queries;
      timers = clear_timer id m.timers;
      resolutions = settle id (replies_of (find query_key id m.pending_queries)) m.resolutions;
    }
    else m

-- a pending query with one more reply
abbrev pub with_reply : PandoReply → PendingQuery → PendingQuery
with_reply r q = record q { replies = q.replies ++ r ∷ [] }

unfoldable pub add_reply : PandoReply → PendingQuery → RequestReplyManager → RequestReplyManager
add_reply r q m =
    let q' = with_reply r q in
    if leb q'.max_replies (length q'.replies)
    then record m {
      pending_queries = remove query_key r.request_id m.pending_queries;
      timers = clear_timer r.request_id m.timers;
      resolutions = settle r.request_id q'.replies m.resolutions;
    }
    else record m { pending_queries = put query_key q' m.pending_queries }

unfoldable pub handle_incoming_reply : PandoReply → RequestReplyManager → RequestReplyManager
handle_incoming_reply r m = elim (find query_key r.request_id m.pending_queries) [
  | none ↦ m
  | some q ↦ add_reply r q m
]

-- `for (const query of pendingQueries) query.resolve(query.replies)`
abbrev pub settle_all : List PendingQuery → List Resolution → List Resolution
settle_all [] done = done
settle_all (q ∷ qs) done = settle_all qs (settle q.request_id q.replies done)

abbrev pub clear_timers : List PendingQuery → List ℕ → List ℕ
clear_timers [] ts = ts
clear_timers (q ∷ qs) ts = clear_timers qs (clear_timer q.request_id ts)

unfoldable pub drain : RequestReplyManager → RequestReplyManager
drain m = record m {
  handlers = [];
  pending_queries = [];
  timers = clear_timers m.pending_queries m.timers;
  resolutions = settle_all m.pending_queries m.resolutions;
  subscribed = false;
}

-- the reply of `sendReply`, which goes to the sender of the request
abbrev pub new_reply : (now peer : ℕ) → PandoRequest → Bool → Option ℕ → Option ℕ → PandoReply
new_reply now peer req success payload error = record {
  request_id = req.request_id;
  from = peer;
  to = req.from;
  type = req.type;
  payload = payload;
  success = success;
  error = error;
  timestamp = now;
}

-- the error 'No handler registered for type: …'
abbrev pub no_handler : ℕ
no_handler = 0

abbrev pub answer : (now peer : ℕ) → PandoRequest → Option Handler → PandoReply
answer now peer req none = new_reply now peer req false none (some no_handler)
answer now peer req (some h) = elim (h.handler req) [
  | returns payload ↦ new_reply now peer req true (some payload) none
  | throws error ↦ new_reply now peer req false none (some error)
]

-- a request for this peer, or for everyone, is answered
unfoldable pub handle_incoming_request :
    (now peer : ℕ) → PandoRequest → RequestReplyManager → RequestReplyManager
handle_incoming_request now peer req m =
    if not (req.to == everyone) && not (req.to == peer)
    then m
    else record m { replies = m.replies ++ answer now peer req (get_handler req.type m) ∷ [] }

-- `start`: the subscription, once
unfoldable pub start : RequestReplyManager → RequestReplyManager
start m = record m { subscribed = true }

-- a message that the subscription hands on: its kind, and the peer it is for, if it names one
pub data AgentMessage : Type 0 where
  request : PandoRequest → AgentMessage
  reply : PandoReply → AgentMessage

abbrev pub is_for : ℕ → Option ℕ → Bool
is_for peer none = true
is_for peer (some target) = target == everyone || target == peer

unfoldable pub on_agent_message :
    (now peer : ℕ) → Option ℕ → AgentMessage → RequestReplyManager → RequestReplyManager
on_agent_message now peer target (request req) m =
    if is_for peer target then handle_incoming_request now peer req m else m
on_agent_message now peer target (reply r) m =
    if is_for peer target then handle_incoming_reply r m else m
