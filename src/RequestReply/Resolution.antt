-- ===== src/RequestReply/Resolution.antt =====
-- Every query of packages/node/src/core/request-reply.ts is resolved.
use pando.Common.{
  ℕ, ◌≤◌, ◌<◌, ◌≡◌, refl, inl, inr, none, some, List, [], ◌∷◌, ◌++◌, length, length-append, leb,
  ◌==◌, ==-refl, arith, Bool-cases,
}
use mathlib.Core.Path.{subst}
use pando.Common.Table.{find}
use pando.RequestReply.Manager.{PandoReply, RequestReplyManager, query_key, resolution_key, query}
use pando.RequestReply.Events.{
  Event, run, Progress, wait_step, progress_step, progress, IsFresh, Shows, queries, fails,
  times_out, receives_reply, receives_request, registers, drains, waiting, done,
}
use pando.RequestReply.Refinement.{run-query}

-- fewer replies than the most that are asked for while the query waits, and no more when it is done
abbrev IsWithin : ℕ → Progress → Type 0
IsWithin max (waiting rs) = length rs < max
IsWithin max (done rs) = length rs ≤ max

wait_step-IsWithin :
    (id max : ℕ) (e : Event) (rs : List PandoReply)
    → length rs < max
    → IsWithin max (wait_step id max e rs)
wait_step-IsWithin id max (queries now j peer type payload timeout limit) rs h = h
wait_step-IsWithin id max (fails j) rs h = elim (Bool-cases (id == j)) [
  | inl same ↦ rw same (omega (arith, h))
  | inr other ↦ rw other h
]
wait_step-IsWithin id max (times_out j) rs h = elim (Bool-cases (id == j)) [
  | inl same ↦ rw same (omega (arith, h))
  | inr other ↦ rw other h
]
wait_step-IsWithin id max (receives_reply r) rs h = elim (Bool-cases (id == r.request_id)) [
  | inr other ↦ rw other h
  | inl same ↦ elim (Bool-cases (leb max (length (rs ++ r ∷ [])))) [
    | inl full ↦ rw (same, full) (omega (arith, h, length-append rs (r ∷ [])))
    | inr room ↦ rw (same, room) (ground (arith, room))
  ]
]
wait_step-IsWithin id max (receives_request now peer req) rs h = h
wait_step-IsWithin id max (registers x) rs h = h
wait_step-IsWithin id max drains rs h = omega (arith, h)

progress-IsWithin :
    (id max : ℕ) (es : List Event) (p : Progress)
    → IsWithin max p
    → IsWithin max (progress id max es p)
progress-IsWithin id max [] p h = h
progress-IsWithin id max (e ∷ es) (waiting rs) h =
    progress-IsWithin id max es (wait_step id max e rs) (wait_step-IsWithin id max e rs h)
progress-IsWithin id max (e ∷ es) (done rs) h = progress-IsWithin id max es (done rs) h

progress-append :
    (id max : ℕ) (es : List Event) (e : Event) (p : Progress)
    → progress id max (es ++ e ∷ []) p ≡ progress_step id max e (progress id max es p)
progress-append id max [] e p = refl
progress-append id max (x ∷ es) e p = progress-append id max es e (progress_step id max x p)

append-IsFresh : (id : ℕ) (es : List Event) → IsFresh id es → IsFresh id (es ++ times_out id ∷ [])
append-IsFresh id [] f = tt
append-IsFresh id (queries now j peer type payload timeout max ∷ es) f =
    (f.0, append-IsFresh id es f.1)
append-IsFresh id (fails j ∷ es) f = append-IsFresh id es f
append-IsFresh id (times_out j ∷ es) f = append-IsFresh id es f
append-IsFresh id (receives_reply r ∷ es) f = append-IsFresh id es f
append-IsFresh id (receives_request now peer req ∷ es) f = append-IsFresh id es f
append-IsFresh id (registers h ∷ es) f = append-IsFresh id es f
append-IsFresh id (drains ∷ es) f = append-IsFresh id es f

-- the query is resolved, with no more replies than asked for, and nothing of it is pending
abbrev pub IsResolved : (id max : ℕ) → RequestReplyManager → Type 0
IsResolved id max m =
    (rs : List PandoReply) × ((find query_key id m.pending_queries ≡ none)
      × ((find resolution_key id m.resolutions ≡ some (record { request_id = id; replies = rs }))
          × (length rs ≤ max)))

timed_out :
    (id max : ℕ) (p : Progress) (m : RequestReplyManager)
    → IsWithin max p
    → Shows id max m (progress_step id max (times_out id) p)
    → IsResolved id max m
timed_out id max (waiting rs) m h s =
    let (gone, resolved) = rw (==-refl id) at s in (rs, (gone, (resolved, omega (arith, h))))
timed_out id max (done rs) m h s = (rs, (s.0, (s.1, h)))

-- Once its timeout has come, whatever happened before, a query is resolved, with at most as many
-- replies as it asked for, and is no longer pending. It asked for at least one reply, its id is
-- new, and no later query has it.
pub run-query-times_out :
    (now id peer type payload timeout max : ℕ) (es : List Event) (m : RequestReplyManager)
    → 0 < max
    → find resolution_key id m.resolutions ≡ none
    → IsFresh id es
    → IsResolved id max
        (run (es ++ times_out id ∷ []) (query now id peer type payload timeout max m))
run-query-times_out now id peer type payload timeout max es m asks new f =
    let m' = run (es ++ times_out id ∷ []) (query now id peer type payload timeout max m) in
    let s =
      run-query now id peer type payload timeout max (es ++ times_out id ∷ []) m new
        (append-IsFresh id es f) in
    timed_out id max (progress id max es (waiting [])) m'
      (progress-IsWithin id max es (waiting []) asks)
      (subst (λ p. Shows id max m' p) (progress-append id max es (times_out id) (waiting [])) s)
