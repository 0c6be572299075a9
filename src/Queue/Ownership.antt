-- ===== src/Queue/Ownership.antt =====
-- src/workflow/queue.js: what the holder of a job's lease may do, and what nobody else may.
use etnpilot.Common.{
  ℕ, ◌+◌, ◌≡◌, refl, sym, ap, ◌∙◌, Bool, true, false, ◌&&◌, String, str_eq, Option, none, some,
  Json, Fields, count, update, if◌then◌else◌, ltb, arith, Bool-cases, inl, inr, eq→str_eq, whole,
  Result, ok, err, eq_refl, put, spread, time, str_eq→eq, subst,
}
use etnpilot.Queue.Types.{
  Row, Table, Job, from_row, is_running, QueueError, lease_lost, owned_by, succeeded,
}
use etnpilot.Queue.Ops.{get_row, view}
use etnpilot.Queue.Owner.{
  held_by, change_held, checkpoint, complete, finish_row, Thrown, fail, failed_row, summarize_error,
  save_checkpoint,
}
use etnpilot.Queue.Invariant.{IsKeyed}
use etnpilot.Queue.Lookup.{OnlyKey, get_row-In, count_one, get_row-update, get_row-update_other}

-- Whether the worker holds the lease of the row that was found.
abbrev pub holds : String → Option Row → Bool
holds worker none = false
holds worker (some r) = is_running r.status && owned_by worker r.lease_owner

-- A worker that does not hold the lease of a job, because the job is unknown, not running, or leased
-- to another, cannot save a checkpoint, complete the job or record a failure: it is told that the
-- lease is lost, and the table stays as it is.
pub stranger_refused :
    (id worker : String) (value : Fields) (result : Json) (error : Thrown) (delay stamp now : ℕ)
    (safe : Bool) (t : Table)
    → holds worker (get_row id t) ≡ false
    → (checkpoint id worker value stamp now t ≡ (err lease_lost, t))
      × (complete id worker result now t ≡ (err lease_lost, t))
      × (fail id worker error (whole delay) safe now t ≡ (err lease_lost, t))
unfolding checkpoint complete fail
stranger_refused id worker value result error delay stamp now safe t h = go (get_row id t) refl h
  where
    go :
        (o : Option Row)
        → get_row id t ≡ o
        → holds worker o ≡ false
        → (checkpoint id worker value stamp now t ≡ (err lease_lost, t))
          × (complete id worker result now t ≡ (err lease_lost, t))
          × (fail id worker error (whole delay) safe now t ≡ (err lease_lost, t))
    go none e h = (rw e, rw e, rw e)
    go (some r) e h = (rw (e, h), rw (e, h), rw (e, h))

change_held-eq :
    (id worker : String) (f : Row → Row) (t : Table) (r : Row)
    → IsKeyed t
    → get_row id t ≡ some r
    → holds worker (some r) ≡ true
    → ((x : Row) → (f x).id ≡ x.id)
    → change_held id worker f t ≡ (ok (some (from_row (f r))), update (held_by id worker) f t)
change_held-eq id worker f t r k e h key =
    let (m, i) = get_row-In id t r e in
    let mine : held_by id worker r ≡ true = rw (i, eq_refl id) h in
    let one : count (held_by id worker) t ≡ 1 =
      count_one t r (held_by id worker) (λ x p. ground (arith, i)) k m mine in
    let after = get_row-update id (held_by id worker) f t r key e in rw one (rw after (rw mine))

-- What a method answers and leaves when it changes the row of one job: the changed row is the
-- answer and stands in the table, and the rows of other jobs are as before.
abbrev pub Changed : String → Row → Table → Result QueueError (Option Job) × Table → Type 0
Changed id r t (answer, u) =
    (answer ≡ ok (some (from_row r)))
    × ((j : String) → get_row j u ≡ (if str_eq j id then some r else get_row j t))

-- An UPDATE by the key, and the job as it is then.
pub update-Changed :
    (id : String) (test : Row → Bool) (f : Row → Row) (t : Table) (r : Row)
    → OnlyKey id test
    → ((x : Row) → (f x).id ≡ x.id)
    → get_row id t ≡ some r
    → test r ≡ true
    → Changed id (f r) t (ok (view (get_row id (update test f t))), update test f t)
update-Changed id test f t r o key e h =
    let after : get_row id (update test f t) ≡ some (f r) =
      get_row-update id test f t r key e ∙ (rw h) in
    (
      ap (λ x. ok (view x)) after,
      λ j. elim (Bool-cases (str_eq j id)) [
        | inl same ↦ rw (same, str_eq→eq j id same) after
        | inr other ↦
            rw other (get_row-update_other id j test f t o key (λ e. cc (eq→str_eq j id e)))
      ],
    )

change_held-Changed :
    (id worker : String) (f : Row → Row) (t : Table) (r : Row)
    → IsKeyed t
    → get_row id t ≡ some r
    → holds worker (some r) ≡ true
    → ((x : Row) → (f x).id ≡ x.id)
    → Changed id (f r) t (change_held id worker f t)
change_held-Changed id worker f t r k e h key =
    let (m, i) = get_row-In id t r e in
    let mine : held_by id worker r ≡ true = rw (i, eq_refl id) h in
    let (answer, rows) =
      update-Changed id (held_by id worker) f t r (λ x p. ground arith) key e mine in
    subst (Changed id (f r) t) (sym (change_held-eq id worker f t r k e h key)) (refl, rows)

module _ (id worker : String) (now : ℕ) (t : Table) (r : Row) (k : IsKeyed t)
    (e : get_row id t ≡ some r) (h : holds worker (some r) ≡ true) where
  pub complete-Changed :
      (result : Json)
      → Changed id (finish_row succeeded result now r) t (complete id worker result now t)
  unfolding complete
  complete-Changed result =
      rw (e, h)
        (change_held-Changed id worker (finish_row succeeded result now) t r k e h (λ x. refl))

  pub fail-Changed :
      (error : Thrown) (delay : ℕ) (safe : Bool)
      → Changed id
          (failed_row
            (safe && ltb r.attempts r.max_attempts)
            (summarize_error error)
            (now + delay)
            now
            r)
          t
          (fail id worker error (whole delay) safe now t)
  unfolding fail
  fail-Changed error delay safe =
      rw (e, h)
        (change_held-Changed id worker
          (failed_row (safe && ltb r.attempts r.max_attempts) (summarize_error error) (now + delay)
            now)
          t r k e h (λ x. refl))

  pub checkpoint-Changed :
      (value : Fields) (stamp : ℕ)
      → Changed id
          (save_checkpoint (put "at" (time stamp) (spread r.checkpoint_json value)) now r)
          t
          (checkpoint id worker value stamp now t)
  unfolding checkpoint
  checkpoint-Changed value stamp =
      rw (e, h)
        (change_held-Changed id worker
          (save_checkpoint (put "at" (time stamp) (spread r.checkpoint_json value)) now) t r k e h
          (λ x. refl))
