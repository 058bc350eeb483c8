-- ===== src/RequestReply/Settling.antt =====
-- What settling one query of packages/node/src/core/request-reply.ts does to it and to the others.
use pando.Common.{
  ℕ, ◌≡◌, ◌≢◌, refl, inl, inr, none, some, List, [], ◌∷◌, ◌++◌, includes, ◌==◌, ==-eq, ==-refl,
  ne_of_==, arith, ◌∙◌, sym, ap, Bool-cases, Option-cases,
}
use mathlib.Core.Path.{subst}
use pando.Common.Table.{find, remove}
use pando.Common.Table.Laws.{find-remove_self, find-remove_ne, find-remove-none}
use pando.Common.Table.Append.{find-append-some, find-append-none}
use pando.RequestReply.Manager.{
  PandoReply, PendingQuery, Resolution, RequestReplyManager, query_key, resolution_key, settle,
  clear_timer, publish_fails, replies_of, time_out, settle_all,
}
use pando.RequestReply.Events.{wait_step, Shows, fails, times_out, waiting, done}

settle_self :
    (id : ℕ) (rs : List PandoReply) (done_ : List Resolution)
    → find resolution_key id done_ ≡ none
    → find resolution_key id (settle id rs done_) ≡ some (record { request_id = id; replies = rs })
settle_self id rs done_ h =
    let r : Resolution = record { request_id = id; replies = rs } in
    let last : find resolution_key id (r ∷ []) ≡ some r = ground (arith, ==-refl id) in
    let added : settle id rs done_ ≡ done_ ++ r ∷ [] = rw (h, settle) refl in
    rw added (find-append-none resolution_key id done_ (r ∷ []) h ∙ last)

settle_ne :
    (id j : ℕ) (rs : List PandoReply) (done_ : List Resolution)
    → id ≢ j
    → find resolution_key id (settle j rs done_) ≡ find resolution_key id done_
settle_ne id j rs done_ ne = elim (Option-cases (find resolution_key j done_)) [
  | inr (r, old) ↦ rw (old, settle) refl
  | inl new ↦
      let r : Resolution = record { request_id = j; replies = rs } in
      let absent : find resolution_key id (r ∷ []) ≡ none = ground (arith, ==-eq j id) in
      rw (new, settle)
        (elim (Option-cases (find resolution_key id done_)) [
          | inl missing ↦
              find-append-none resolution_key id done_ (r ∷ []) missing ∙ (absent ∙ sym missing)
          | inr (x, found) ↦ find-append-some resolution_key id done_ (r ∷ []) found ∙ sym found
        ])
]

pub settle_kept :
    (id j : ℕ) (rs : List PandoReply) {r : Resolution} (done_ : List Resolution)
    → find resolution_key id done_ ≡ some r
    → find resolution_key id (settle j rs done_) ≡ some r
settle_kept id j rs {r} done_ h = elim (Option-cases (find resolution_key j done_)) [
  | inr (x, old) ↦ rw (old, settle) h
  | inl new ↦ rw (new, settle) (find-append-some resolution_key id done_ _ h)
]

pub settle_all_kept :
    (id : ℕ) {r : Resolution} (qs : List PendingQuery) (done_ : List Resolution)
    → find resolution_key id done_ ≡ some r
    → find resolution_key id (settle_all qs done_) ≡ some r
settle_all_kept id [] done_ h = h
settle_all_kept id (q ∷ qs) done_ h =
    settle_all_kept id qs _ (settle_kept id q.request_id q.replies done_ h)

pub settle_all_found :
    (id : ℕ) (x : PendingQuery) (qs : List PendingQuery) (done_ : List Resolution)
    → find query_key id qs ≡ some x
    → find resolution_key id done_ ≡ none
    → find resolution_key id (settle_all qs done_)
      ≡ some (record { request_id = id; replies = x.replies })
settle_all_found id x [] done_ h new = absurd (ground arith)
settle_all_found id x (q ∷ qs) done_ h new = elim (Bool-cases (q.request_id == id)) [
  | inl same ↦
      let e : q.request_id ≡ id = ==-eq q.request_id id same in
      let q_x : q ≡ x = ground arith in
      let replies_x : q.replies ≡ x.replies = ap (λ (y : PendingQuery). y.replies) q_x in
      settle_all_kept id qs _ (
        subst
          (λ k.
            find resolution_key id (settle k q.replies done_)
            ≡ some (record { request_id = id; replies = x.replies }))
          (sym e) (rw replies_x (settle_self id x.replies done_ new)))
  | inr other ↦ settle_all_found id x qs _ (ground arith) (
      settle_ne id q.request_id q.replies done_ (λ e. ne_of_== q.request_id id other (sym e)) ∙ new)
]

clear_timer_ne : (id j : ℕ) (ts : List ℕ) → id ≢ j → includes id (clear_timer j ts) ≡ includes id ts
clear_timer_ne id j [] ne = refl
clear_timer_ne id j (t ∷ ts) ne = elim (Bool-cases (t == j)) [
  | inl same ↦
      let e : t ≡ j = ==-eq t j same in ground (arith, clear_timer_ne id j ts ne, ==-eq id t)
  | inr other ↦ ground (arith, clear_timer_ne id j ts ne)
]

-- what concerns another query only
pub others_pending :
    (id j max : ℕ) (rs rs' : List PandoReply) (m : RequestReplyManager)
    → id ≢ j
    → Shows id max m (waiting rs)
    → Shows id max
        (record m {
          pending_queries = remove query_key j m.pending_queries;
          timers = clear_timer j m.timers;
          resolutions = settle j rs' m.resolutions;
        })
        (waiting rs)
others_pending id j max rs rs' m ne (pending, (unsettled, set)) = (
  find-remove_ne query_key id j m.pending_queries ne ∙ pending,
  (settle_ne id j rs' m.resolutions ne ∙ unsettled, clear_timer_ne id j m.timers ne ∙ set),
)

pub settled :
    (id max : ℕ) (rs : List PandoReply) (m : RequestReplyManager)
    → find resolution_key id m.resolutions ≡ none
    → Shows id max
        (record m {
          pending_queries = remove query_key id m.pending_queries;
          timers = clear_timer id m.timers;
          resolutions = settle id rs m.resolutions;
        })
        (done rs)
settled id max rs m new =
    (find-remove_self query_key id m.pending_queries, settle_self id rs m.resolutions new)

pub finished :
    (id j max : ℕ) (rs rs' : List PandoReply) (m : RequestReplyManager)
    → Shows id max m (done rs)
    → Shows id max
        (record m {
          pending_queries = remove query_key j m.pending_queries;
          timers = clear_timer j m.timers;
          resolutions = settle j rs' m.resolutions;
        })
        (done rs)
finished id j max rs rs' m (gone, settled_) = (
  find-remove-none query_key id j m.pending_queries gone,
  settle_kept id j rs' m.resolutions settled_,
)

pub waiting-fails :
    (id j max : ℕ) (rs : List PandoReply) (m : RequestReplyManager)
    → Shows id max m (waiting rs)
    → Shows id max (publish_fails j m) (wait_step id max (fails j) rs)
unfolding publish_fails
waiting-fails id j max rs m s = elim (Bool-cases (id == j)) [
  | inl same ↦ rw (same, ← ==-eq id j same) (settled id max [] m s.1.0)
  | inr other ↦ rw other (others_pending id j max rs [] m (ne_of_== id j other) s)
]

pub waiting-times_out :
    (id j max : ℕ) (rs : List PandoReply) (m : RequestReplyManager)
    → Shows id max m (waiting rs)
    → Shows id max (time_out j m) (wait_step id max (times_out j) rs)
unfolding time_out
waiting-times_out id j max rs m s = elim (Bool-cases (id == j)) [
  | inl same ↦
      let mine : replies_of (find query_key id m.pending_queries) ≡ rs = rw s.0 refl in
      rw (same, ← ==-eq id j same, s.1.1, mine) (settled id max rs m s.1.0)
  | inr other ↦ elim (Bool-cases (includes j m.timers)) [
    | inl set ↦
        rw (other, set)
          (others_pending id j max rs (replies_of (find query_key j m.pending_queries)) m
            (ne_of_== id j other) s)
    | inr unset ↦ rw (other, unset) s
  ]
]
