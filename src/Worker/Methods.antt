-- ===== src/Worker/Methods.antt =====
-- src/workflow/queue-worker.js: the methods of the queue that a worker calls at the end of a run give
-- its lease back.
use etnpilot.Common.{
  ℕ, ◌+◌, ◌≡◌, refl, Bool, true, false, ◌&&◌, Option, none, some, String, if◌then◌else◌, Json,
  update, update_row, count, ◌==◌, ltb, arith, Bool-cases, Option-cases, inl, inr, whole, eq_refl,
  select-update-none,
}
use etnpilot.Queue.Types.{Row, Table, is_leased, is_cancel_requested, owned_by, succeeded}
use etnpilot.Queue.Ops.{has_id, get_row, orphan, orphaned_error}
use etnpilot.Queue.Owner.{
  held_by, change_held, complete, finish_row, Thrown, fail, failed_row, summarize_error,
  mark_canceled, canceled_row, abandon,
}
use etnpilot.Queue.Ownership.{holds}
use etnpilot.Queue.Lookup.{get_row-update, get_row-In}
use etnpilot.Worker.Run.{wants_cancel}

-- Whether the worker has the lease of the row that was found.
abbrev pub has_lease : String → Option Row → Bool
has_lease worker none = false
has_lease worker (some r) = is_leased r.status && owned_by worker r.lease_owner

get_row-update-none :
    (id : String) (test : Row → Bool) (f : Row → Row) (t : Table)
    → ((x : Row) → (f x).id ≡ x.id)
    → get_row id t ≡ none
    → get_row id (update test f t) ≡ none
get_row-update-none id test f t key e = select-update-none (λ x. x.id) id test f t key e

change_held-table :
    (id worker : String) (f : Row → Row) (t : Table)
    → (change_held id worker f t).1 ≡ update (held_by id worker) f t
change_held-table id worker f t = elim (Bool-cases (count (held_by id worker) t == 1)) [
  | inl one ↦ rw one refl
  | inr two ↦ rw two refl
]

get_row-has_id : (id : String) (t : Table) (r : Row) → get_row id t ≡ some r → has_id id r ≡ true
get_row-has_id id t r e = ground (arith, (get_row-In id t r e).1, eq_refl id)

module _ (id worker : String) (now : ℕ) where
  pub abandon-releases :
      (reason : String) (t : Table)
      → has_lease worker (get_row id (abandon id worker reason now t).1) ≡ false
  unfolding abandon
  abandon-releases reason t = elim (Option-cases (get_row id t)) [
    | inl e ↦
        rw
          (get_row-update-none id
            (λ r. has_id id r && is_leased r.status && owned_by worker r.lease_owner)
            (orphan (orphaned_error reason) now) t (λ _. refl) e)
          refl
    | inr (r, e) ↦
        rw
          (get_row-update id
            (λ r. has_id id r && is_leased r.status && owned_by worker r.lease_owner)
            (orphan (orphaned_error reason) now) t r (λ _. refl) e)
          ground (arith, get_row-has_id id t r e)
  ]

  -- An UPDATE of the row that the worker holds to one that is not leased.
  held-releases :
      (f : Row → Row) (t : Table)
      → ((x : Row) → (f x).id ≡ x.id)
      → ((x : Row) → is_leased (f x).status ≡ false)
      → (wants_cancel (get_row id t) && has_lease worker (get_row id t)) ≡ false
      → has_lease worker (get_row id (update (held_by id worker) f t)) ≡ false
  held-releases f t key free h = elim (Option-cases (get_row id t)) [
    | inl e ↦ rw (get_row-update-none id (held_by id worker) f t key e) refl
    | inr (r, e) ↦
        rw (get_row-update id (held_by id worker) f t r key e)
          (go r (get_row-has_id id t r e) (rw e at h))
  ]
    where
      go :
          (r : Row)
          → has_id id r ≡ true
          → (is_cancel_requested r.status && (is_leased r.status && owned_by worker r.lease_owner))
            ≡ false
          → has_lease worker (some (update_row (held_by id worker) f r)) ≡ false
      go r i h = elim (Bool-cases (held_by id worker r)) [
        | inl mine ↦ rw mine (rw (free r) refl)
        | inr other ↦ rw other ground arith
      ]

  -- What `complete` and `fail` leave: the table as it is, unless the worker holds the job.
  owned-releases :
      (o : Option Row) (f : Row → Row) (t u : Table)
      → get_row id t ≡ o
      → (wants_cancel (get_row id t) && has_lease worker (get_row id t)) ≡ false
      → ((x : Row) → (f x).id ≡ x.id)
      → ((x : Row) → is_leased (f x).status ≡ false)
      → u ≡ (if holds worker o then update (held_by id worker) f t else t)
      → has_lease worker (get_row id u) ≡ false
  owned-releases none f t u e h key free g = rw g (rw e refl)
  owned-releases (some r) f t u e h key free g = elim (Bool-cases (holds worker (some r))) [
    | inl mine ↦ rw (g, mine) (held-releases f t key free h)
    | inr other ↦ rw (g, other) (rw e (go r other (rw e at h)))
  ]
    where
      go :
          (r : Row)
          → holds worker (some r) ≡ false
          → (is_cancel_requested r.status && (is_leased r.status && owned_by worker r.lease_owner))
            ≡ false
          → has_lease worker (some r) ≡ false
      go r n h = ground arith

  pub complete-releases :
      (result : Json) (t : Table)
      → (wants_cancel (get_row id t) && has_lease worker (get_row id t)) ≡ false
      → has_lease worker (get_row id (complete id worker result now t).1) ≡ false
  unfolding complete
  complete-releases result t h =
      owned-releases (get_row id t) (finish_row succeeded result now) t _ refl h (λ _. refl)
        (λ _. refl)
        (elim (Option-cases (get_row id t)) [
          | inl e ↦ rw e refl
          | inr (r, e) ↦ rw e (elim (Bool-cases (holds worker (some r))) [
            | inl mine ↦ rw mine (change_held-table id worker (finish_row succeeded result now) t)
            | inr other ↦ rw other refl
          ])
        ])

  failed_row-free :
      (b : Bool) (error : Json) (available : ℕ) (x : Row)
      → is_leased (failed_row b error available now x).status ≡ false
  failed_row-free true error available x = refl
  failed_row-free false error available x = refl

  pub fail-releases :
      (error : Thrown) (delay : ℕ) (safe : Bool) (t : Table)
      → (wants_cancel (get_row id t) && has_lease worker (get_row id t)) ≡ false
      → has_lease worker (get_row id (fail id worker error (whole delay) safe now t).1) ≡ false
  unfolding fail
  fail-releases error delay safe t h = elim (Option-cases (get_row id t)) [
    | inl e ↦ rw e (rw e refl)
    | inr (r, e) ↦
        let f =
          failed_row (safe && ltb r.attempts r.max_attempts) (summarize_error error) (now + delay)
            now in
        owned-releases (some r) f t _ e h (λ _. refl)
          (failed_row-free (safe && ltb r.attempts r.max_attempts) (summarize_error error)
            (now + delay))
          (rw e (elim (Bool-cases (holds worker (some r))) [
            | inl mine ↦ rw mine (change_held-table id worker f t)
            | inr other ↦ rw other refl
          ]))
  ]

  canceling : Row → Bool
  canceling r = has_id id r && is_cancel_requested r.status && owned_by worker r.lease_owner

  pub mark_canceled-releases :
      (t : Table)
      → wants_cancel (get_row id t) ≡ true
      → has_lease worker (get_row id (mark_canceled id worker now t).1) ≡ false
  unfolding mark_canceled canceling
  mark_canceled-releases t h = elim (Bool-cases (count canceling t == 1)) [
    | inl one ↦ rw one updated
    | inr two ↦ rw two updated
  ]
    where
      go :
          (r : Row)
          → has_id id r ≡ true
          → is_cancel_requested r.status ≡ true
          → has_lease worker (some (update_row canceling (canceled_row now) r)) ≡ false
      go r i c = ground arith

      updated : has_lease worker (get_row id (update canceling (canceled_row now) t)) ≡ false
      updated = elim (Option-cases (get_row id t)) [
        | inl e ↦ absurd (cc (rw e at h))
        | inr (r, e) ↦
            rw (get_row-update id canceling (canceled_row now) t r (λ _. refl) e)
              (go r (get_row-has_id id t r e) (rw e at h))
      ]
