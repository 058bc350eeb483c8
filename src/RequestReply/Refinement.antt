-- ===== src/RequestReply/Refinement.antt =====
-- Each query of packages/node/src/core/request-reply.ts goes as if it were the only one.
use pando.Common.{
  ℕ, ◌≡◌, ◌≢◌, refl, inl, inr, true, false, not, ◌&&◌, none, some, List, [], ◌∷◌, ◌++◌, length,
  includes, leb, ◌==◌, ==-eq, ==-refl, ne_of_==, arith, ◌∙◌, sym, Bool-cases, Option-cases,
}
use mathlib.Core.Path.{subst}
use pando.Common.Table.{find, put, remove}
use pando.Common.Table.Laws.{find-put_self, find-put_ne, key-find}
use pando.RequestReply.Manager.{
  everyone, PandoRequest, PandoReply, PendingQuery, RequestReplyManager, query_key, resolution_key,
  register_handler, settle, clear_timer, query, publish_fails, replies_of, time_out, with_reply,
  add_reply, handle_incoming_reply, drain, handle_incoming_request,
}
use pando.RequestReply.Events.{
  Event, step, run, Progress, collect, wait_step, progress_step, progress, IsFresh, Shows, queries,
  fails, times_out, receives_reply, receives_request, registers, drains, waiting, done,
}
use pando.RequestReply.Settling.{
  settle_all_kept, settle_all_found, others_pending, settled, finished, waiting-fails,
  waiting-times_out,
}

reply_unknown :
    (r : PandoReply) (m : RequestReplyManager)
    → find query_key r.request_id m.pending_queries ≡ none
    → handle_incoming_reply r m ≡ m
unfolding handle_incoming_reply
reply_unknown r m missing = rw (missing, handle_incoming_reply) refl

reply_last :
    (r : PandoReply) (q : PendingQuery) (m : RequestReplyManager)
    → find query_key r.request_id m.pending_queries ≡ some q
    → leb q.max_replies (length (q.replies ++ r ∷ [])) ≡ true
    → handle_incoming_reply r m ≡ record m {
      pending_queries = remove query_key r.request_id m.pending_queries;
      timers = clear_timer r.request_id m.timers;
      resolutions = settle r.request_id (q.replies ++ r ∷ []) m.resolutions;
    }
unfolding handle_incoming_reply add_reply
reply_last r q m found full = rw (found, full, handle_incoming_reply, add_reply) refl

reply_more :
    (r : PandoReply) (q : PendingQuery) (m : RequestReplyManager)
    → find query_key r.request_id m.pending_queries ≡ some q
    → leb q.max_replies (length (q.replies ++ r ∷ [])) ≡ false
    → handle_incoming_reply r m
      ≡ record m { pending_queries = put query_key (with_reply r q) m.pending_queries }
unfolding handle_incoming_reply add_reply
reply_more r q m found room = rw (found, room, handle_incoming_reply, add_reply) refl

own_reply :
    (max : ℕ) (r : PandoReply) (rs : List PandoReply) (m : RequestReplyManager)
    → Shows r.request_id max m (waiting rs)
    → Shows r.request_id max (handle_incoming_reply r m) (collect max (rs ++ r ∷ []))
own_reply max r rs m s =
    let q : PendingQuery = record { request_id = r.request_id; replies = rs; max_replies = max } in
    elim (Bool-cases (leb max (length (rs ++ r ∷ [])))) [
      | inl full ↦
          rw (reply_last r q m s.0 full, full) (settled r.request_id max (rs ++ r ∷ []) m s.1.0)
      | inr room ↦
          rw (reply_more r q m s.0 room, room)
            (find-put_self query_key (with_reply r q) m.pending_queries, s.1)
    ]

other_reply :
    (id max : ℕ) (r : PandoReply) (rs : List PandoReply) (m : RequestReplyManager)
    → id ≢ r.request_id
    → Shows id max m (waiting rs)
    → Shows id max (handle_incoming_reply r m) (waiting rs)
other_reply id max r rs m ne s =
    elim (Option-cases (find query_key r.request_id m.pending_queries)) [
      | inl missing ↦ rw (reply_unknown r m missing) s
      | inr (q, found) ↦
          let k = key-find query_key r.request_id m.pending_queries found in
          elim (Bool-cases (leb q.max_replies (length (q.replies ++ r ∷ [])))) [
            | inl full ↦
                rw (reply_last r q m found full)
                  (others_pending id r.request_id max rs (q.replies ++ r ∷ []) m ne s)
            | inr room ↦ rw (reply_more r q m found room) (
              find-put_ne query_key id (with_reply r q) m.pending_queries (λ e. ne (e ∙ k)) ∙ s.0,
              s.1,
            )
          ]
    ]

waiting-replies :
    (id max : ℕ) (r : PandoReply) (rs : List PandoReply) (m : RequestReplyManager)
    → Shows id max m (waiting rs)
    → Shows id max (handle_incoming_reply r m) (wait_step id max (receives_reply r) rs)
waiting-replies id max r rs m s = elim (Bool-cases (id == r.request_id)) [
  | inl same ↦
      let e : id ≡ r.request_id = ==-eq id r.request_id same in
      rw same (
        subst (λ k. Shows k max (handle_incoming_reply r m) (collect max (rs ++ r ∷ []))) (sym e)
          (own_reply max r rs m (subst (λ k. Shows k max m (waiting rs)) e s)))
  | inr other ↦ rw other (other_reply id max r rs m (ne_of_== id r.request_id other) s)
]

done-replies :
    (id max : ℕ) (r : PandoReply) (rs : List PandoReply) (m : RequestReplyManager)
    → Shows id max m (done rs)
    → Shows id max (handle_incoming_reply r m) (done rs)
done-replies id max r rs m s = elim (Option-cases (find query_key r.request_id m.pending_queries)) [
  | inl missing ↦ rw (reply_unknown r m missing) s
  | inr (q, found) ↦
      let k = key-find query_key r.request_id m.pending_queries found in
      elim (Bool-cases (leb q.max_replies (length (q.replies ++ r ∷ [])))) [
        | inl full ↦
            rw (reply_last r q m found full)
              (finished id r.request_id max rs (q.replies ++ r ∷ []) m s)
        | inr room ↦
            let ne : id ≢ r.request_id = λ e. absurd (
              let clash : none ≡ some q =
                sym s.0 ∙ subst (λ j. find query_key j m.pending_queries ≡ some q) (sym e) found in
              ground arith) in
            rw (reply_more r q m found room) (
              find-put_ne query_key id (with_reply r q) m.pending_queries (λ e. ne (e ∙ k)) ∙ s.0,
              s.1,
            )
      ]
]

waiting-request :
    (id max now peer : ℕ) (req : PandoRequest) (p : Progress) (m : RequestReplyManager)
    → Shows id max m p
    → Shows id max (handle_incoming_request now peer req m) p
unfolding handle_incoming_request
waiting-request id max now peer req (waiting rs) m s =
    elim (Bool-cases (not (req.to == everyone) && not (req.to == peer))) [
      | inl elsewhere ↦ rw (elsewhere, handle_incoming_request) s
      | inr ours ↦ rw (ours, handle_incoming_request) s
    ]
waiting-request id max now peer req (done rs) m s =
    elim (Bool-cases (not (req.to == everyone) && not (req.to == peer))) [
      | inl elsewhere ↦ rw (elsewhere, handle_incoming_request) s
      | inr ours ↦ rw (ours, handle_incoming_request) s
    ]

step-Shows :
    (id max : ℕ) (e : Event) (es : List Event) (p : Progress) (m : RequestReplyManager)
    → IsFresh id (e ∷ es)
    → Shows id max m p
    → Shows id max (step e m) (progress_step id max e p) × IsFresh id es
unfolding query register_handler drain publish_fails time_out
step-Shows id max (queries now j peer type payload timeout limit) es (waiting rs) m f s = (
  (
    find-put_ne query_key id (record { request_id = j; replies = []; max_replies = limit })
          m.pending_queries f.0
        ∙ s.0,
    (s.1.0, ground (arith, s.1.1)),
  ),
  f.1,
)
step-Shows id max (queries now j peer type payload timeout limit) es (done rs) m f s = (
  (
    find-put_ne query_key id (record { request_id = j; replies = []; max_replies = limit })
          m.pending_queries f.0
        ∙ s.0,
    s.1,
  ),
  f.1,
)
step-Shows id max (fails j) es (waiting rs) m f s = (waiting-fails id j max rs m s, f)
step-Shows id max (fails j) es (done rs) m f s = (finished id j max rs [] m s, f)
step-Shows id max (times_out j) es (waiting rs) m f s = (waiting-times_out id j max rs m s, f)
step-Shows id max (times_out j) es (done rs) m f s = (
  elim (Bool-cases (includes j m.timers)) [
    | inl set ↦ rw set (finished id j max rs (replies_of (find query_key j m.pending_queries)) m s)
    | inr unset ↦ rw unset s
  ],
  f,
)
step-Shows id max (receives_reply r) es (waiting rs) m f s = (waiting-replies id max r rs m s, f)
step-Shows id max (receives_reply r) es (done rs) m f s = (done-replies id max r rs m s, f)
step-Shows id max (receives_request now peer req) es (waiting rs) m f s =
    (waiting-request id max now peer req (waiting rs) m s, f)
step-Shows id max (receives_request now peer req) es (done rs) m f s =
    (waiting-request id max now peer req (done rs) m s, f)
step-Shows id max (registers h) es (waiting rs) m f s = (s, f)
step-Shows id max (registers h) es (done rs) m f s = (s, f)
step-Shows id max drains es (waiting rs) m f s =
    ((refl, settle_all_found id _ m.pending_queries m.resolutions s.0 s.1.0), f)
step-Shows id max drains es (done rs) m f s =
    ((refl, settle_all_kept id m.pending_queries m.resolutions s.1), f)

run-Shows :
    (id max : ℕ) (es : List Event) (p : Progress) (m : RequestReplyManager)
    → IsFresh id es
    → Shows id max m p
    → Shows id max (run es m) (progress id max es p)
run-Shows id max [] p m f s = s
run-Shows id max (e ∷ es) p m f s =
    let (s', f') = step-Shows id max e es p m f s in
    run-Shows id max es (progress_step id max e p) (step e m) f' s'

-- Over every sequence of events after a query, with other queries, their replies, timeouts and
-- failures in between, the manager has this query exactly as a query by itself has it: pending with
-- its replies in their order of arrival, or resolved once: with these replies if the limit of
-- replies, the timeout or a drain ended it, and with none if its publication failed. The query's id
-- is new, and no later query has it.
pub run-query :
    (now id peer type payload timeout max : ℕ) (es : List Event) (m : RequestReplyManager)
    → find resolution_key id m.resolutions ≡ none
    → IsFresh id es
    → Shows id max
        (run es (query now id peer type payload timeout max m))
        (progress id max es (waiting []))
unfolding query
run-query now id peer type payload timeout max es m new f =
    run-Shows id max es (waiting []) (query now id peer type payload timeout max m) f (
      find-put_self query_key (record { request_id = id; replies = []; max_replies = max })
          m.pending_queries,
      (new, ground (arith, ==-refl id)),
    )
