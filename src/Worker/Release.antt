-- ===== src/Worker/Release.antt =====
-- src/workflow/queue-worker.js: a worker does not keep the lease of a job that it has run.
use etnpilot.Common.{
  ℕ, ◌≡◌, refl, ◌∙◌, Bool, true, false, ◌||◌, Option, some, List, String, Json, arith, Bool-cases,
  inl, inr, whole, Result, ok, err, eq_refl,
}
use etnpilot.Queue.Types.{Row, Table, Job, QueueError, succeeded}
use etnpilot.Queue.Ops.{get_row}
use etnpilot.Queue.Owner.{complete, finish_row, Thrown, mark_canceled}
use etnpilot.Queue.Invariant.{IsKeyed}
use etnpilot.Queue.Ownership.{holds, complete-Changed}
use etnpilot.Queue.Effects.{Completed}
use etnpilot.Queue.Written.{finish_row-Completed}
use etnpilot.Worker.Run.{
  Event, Ending, returned, threw, Assignment, execution, wants_cancel, thrown_by_queue, catch_error,
  after_result, settle, run,
}
use etnpilot.Worker.Methods.{
  has_lease, abandon-releases, complete-releases, fail-releases, mark_canceled-releases,
}

module _ (a : Assignment) (delay : ℕ) (delayed : a.retry_delay_ms ≡ whole delay) where
  catch_error-releases :
      (gives_up : Bool) (error : Thrown) (now : ℕ) (t : Table)
      → has_lease a.worker (get_row a.id (catch_error a gives_up error now t)) ≡ false
  catch_error-releases gives_up error now t = elim (Bool-cases (wants_cancel (get_row a.id t))) [
    | inl c ↦ rw c (mark_canceled-releases a.id a.worker now t c)
    | inr n ↦ rw n (elim (Bool-cases gives_up) [
      | inl up ↦ rw up (
          abandon-releases a.id a.worker now "Worker stopped or lost its lease during execution." t)
      | inr on ↦
          rw (on, delayed)
            (fail-releases a.id a.worker now error delay error.safe_to_retry t (rw n refl))
    ])
  ]

  after_result-releases :
      (gives_up : Bool) (now : ℕ) (r : Result QueueError (Option Job)) (t : Table)
      → has_lease a.worker (get_row a.id t) ≡ false
      → has_lease a.worker (get_row a.id (after_result a gives_up now r t)) ≡ false
  after_result-releases gives_up now (ok job) t h = h
  after_result-releases gives_up now (err e) t h =
      catch_error-releases gives_up (thrown_by_queue e) now t

  settle-releases :
      (gives_up : Bool) (ending : Ending) (now again : ℕ) (t : Table)
      → has_lease a.worker (get_row a.id (settle a gives_up ending now again t)) ≡ false
  settle-releases gives_up (threw error) now again t = catch_error-releases gives_up error now t
  settle-releases gives_up (returned result) now again t =
      elim (Bool-cases (wants_cancel (get_row a.id t))) [
        | inl c ↦ rw c (
            after_result-releases gives_up again (mark_canceled a.id a.worker now t).0
              (mark_canceled a.id a.worker now t).1 (mark_canceled-releases a.id a.worker now t c))
        | inr n ↦ rw n (
            after_result-releases gives_up again (complete a.id a.worker result now t).0
              (complete a.id a.worker result now t).1
              (complete-releases a.id a.worker now result t (rw n refl)))
      ]

-- When a run ends, the worker does not have the lease of the job any more, whatever happened during
-- its execution: a cancellation, an expired lease, another worker's claim, a shutdown or an error of
-- the queue itself. The delay of a retry must be a whole number that is not negative.
pub run-releases :
    (a : Assignment) (delay : ℕ) (es : List Event) (ending : Ending) (stopping : Bool)
    (now again : ℕ) (t : Table)
    → a.retry_delay_ms ≡ whole delay
    → has_lease a.worker (get_row a.id (run a es ending stopping now again t)) ≡ false
unfolding run
run-releases a delay es ending stopping now again t delayed =
    let (aborted, t') = execution a false es t in
    settle-releases a delay delayed (stopping || aborted) ending now again t'

holds-unwanted :
    (worker : String) (r : Row) → holds worker (some r) ≡ true → wants_cancel (some r) ≡ false
holds-unwanted worker r h = ground arith

-- If the worker still holds the running job when its execution returns a result, on a table with
-- distinct keys, then after the run the job has succeeded, its result is that one, it has no error and no
-- lease, and its end is recorded; its attempts and its progress are as before. This also holds when the worker
-- is stopping or its signal was aborted.
pub run_returns :
    (a : Assignment) (es : List Event) (result : Json) (stopping : Bool) (now again : ℕ) (t : Table)
    (r : Row)
    → IsKeyed (execution a false es t).1
    → get_row a.id (execution a false es t).1 ≡ some r
    → holds a.worker (some r) ≡ true
    → (s : Row) × (get_row a.id (run a es (returned result) stopping now again t) ≡ some s)
      × Completed result now r s
unfolding run
run_returns a es result stopping now again t r k e h =
    let t' = (execution a false es t).1 in
    let (answer, rows) = complete-Changed a.id a.worker now t' r k e h result in
    (
      finish_row succeeded result now r,
      rw (e, holds-unwanted a.worker r h) (rw answer (rows a.id ∙ rw (eq_refl a.id) refl)),
      finish_row-Completed result now r,
    )
