-- ===== src/Queue/Claims.antt =====
-- src/workflow/queue.js: what `claim` hands out.
use etnpilot.Common.{
  ℕ, ◌+◌, ◌≤◌, ◌<◌, ◌≡◌, refl, sym, ap, ◌∙◌, true, false, String, Option, none, some, ◌≢◌, le→leb,
  arith, whole, ok, transaction_commits, some-injective, ok-injective, eq_refl, subst, str_eq,
  if◌then◌else◌,
}
use mathlib.Core.Bool.{false≢true}
use etnpilot.Queue.Selecting.{is_due, IsFirst, NoneReady, Selected, next_ready-Selected}
use etnpilot.Queue.Types.{Row, Table, Job, from_row}
use etnpilot.Queue.Ops.{
  get_row, nonempty, ready, next_ready, claimable, take_lease, claim, claim_next, claim_found,
  expired, recover_expired_leases, orphan, lease_expired,
}
use etnpilot.Queue.Invariant.{IsKeyed, Changes-IsKeyed, Steps-IsKeyed}
use etnpilot.Queue.Refinement.{recover-Changes, claim_found_ok, claim-Steps}
use etnpilot.Queue.Ownership.{update-Changed}
use etnpilot.Queue.Effects.{Leased}
use etnpilot.Queue.Written.{Shows, from_row-Shows, take_lease-Leased}
use etnpilot.Queue.Lookup.{In-get_row, count_one, get_row-update}

-- What `claim` answers and leaves, by the row that its UPDATE writes.
abbrev Rows : String → Row → Table → Table → Type 0
Rows id s t u = (j : String) → get_row j u ≡ (if str_eq j id then some s else get_row j t)

abbrev Taken : String → ℕ → ℕ → Table → Table → Option Job → Type 0
Taken worker lease now t u none = (u ≡ t) × NoneReady now t
Taken worker lease now t u (some job) =
    (r : Row) × (get_row r.id t ≡ some r)
    × (ready now r ≡ true)
    × IsFirst now r t
    × (job ≡ from_row (take_lease worker lease now r))
    × Rows r.id (take_lease worker lease now r) t u

-- What `claim` answers, and the table `u` that it leaves, told by the table `t` after the expired
-- leases are recovered: nothing if no job is ready, and else the first ready job, which now runs
-- under the worker's lease.
abbrev pub Claimed : String → ℕ → ℕ → Table → Table → Option Job → Type 0
Claimed worker lease now t u none = (u ≡ t) × NoneReady now t
Claimed worker lease now t u (some job) =
    (r : Row) × (get_row r.id t ≡ some r)
    × (is_due now r ≡ true)
    × IsFirst now r t
    × (s : Row) × Leased worker lease now r s
    × Shows s job
    × ((j : String) → get_row j u ≡ (if str_eq j r.id then some s else get_row j t))

Taken-Claimed :
    (worker : String) (lease now : ℕ) (t u : Table) (job : Option Job)
    → Taken worker lease now t u job
    → Claimed worker lease now t u job
Taken-Claimed worker lease now t u none c = c
Taken-Claimed worker lease now t u (some job) (r, found, is_ready, first, named, rows) =
    let s = take_lease worker lease now r in
    (
      r,
      found,
      is_ready,
      first,
      s,
      take_lease-Leased worker lease now r,
      subst (Shows s) (sym named) (from_row-Shows s),
      rows,
    )

claim_found-Taken :
    (worker : String) (lease now : ℕ) (t : Table) (o : Option Row)
    → IsKeyed t
    → Selected now t o
    → (job : Option Job) × ((claim_found worker lease now o t).0 ≡ ok job)
      × Taken worker lease now t (claim_found worker lease now o t).1 job
claim_found-Taken worker lease now t none k s = (none, refl, (refl, s))
claim_found-Taken worker lease now t (some r) k s =
    let got = In-get_row t r k s.1 in
    let test : claimable r.id now r ≡ true = rw (eq_refl r.id) s.0 in
    let after =
      get_row-update r.id (claimable r.id now) (take_lease worker lease now) t r (λ x. refl) got in
    (
      some (from_row (take_lease worker lease now r)),
      rw (count_one t r (claimable r.id now) (λ x h. ground arith) k s.1 test) (rw (after, test)),
      (
        r,
        got,
        s.0,
        s.2,
        refl,
        (update-Changed r.id (claimable r.id now) (take_lease worker lease now) t r
            (λ x h. ground arith) (λ x. refl) got test).1,
      ),
    )

recover-IsKeyed : (now : ℕ) (t : Table) → IsKeyed t → IsKeyed (recover_expired_leases now t)
recover-IsKeyed now t k = Changes-IsKeyed {re = false} (recover-Changes now t) k

claim_next-Taken :
    (worker : String) (lease now : ℕ) (t : Table)
    → IsKeyed t
    → (job : Option Job) × ((claim_next worker lease now t).0 ≡ ok job)
      × Taken worker lease now (recover_expired_leases now t) (claim_next worker lease now t).1 job
unfolding claim_next
claim_next-Taken worker lease now t k =
    let recovered = recover_expired_leases now t in
    claim_found-Taken worker lease now recovered (next_ready now recovered)
      (recover-IsKeyed now t k) (next_ready-Selected now recovered)

claim_next_ok :
    (worker : String) (lease now : ℕ) (t : Table)
    → (job : Option Job) × ((claim_next worker lease now t).0 ≡ ok job)
unfolding claim_next
claim_next_ok worker lease now t =
    let recovered = recover_expired_leases now t in
    claim_found_ok worker lease now (next_ready now recovered) recovered

-- With good arguments `claim` is its transaction, which does not throw.
claim-eq :
    (worker : String) (lease now : ℕ) (t : Table)
    → nonempty worker ≡ true
    → 1 ≤ lease
    → claim worker (whole lease) now t ≡ claim_next worker lease now t
unfolding claim
claim-eq worker lease now t named positive =
    rw (named, le→leb 1 lease positive)
      (transaction_commits (claim_next worker lease now) t (claim_next_ok worker lease now t).1)

claim-Taken :
    (worker : String) (lease now : ℕ) (t : Table)
    → nonempty worker ≡ true
    → 1 ≤ lease
    → IsKeyed t
    → (job : Option Job) × ((claim worker (whole lease) now t).0 ≡ ok job)
      × Taken worker lease now
          (recover_expired_leases now t)
          (claim worker (whole lease) now t).1
          job
claim-Taken worker lease now t named positive k =
    subst
      (λ p.
        (job : Option Job) × (p.0 ≡ ok job)
        × Taken worker lease now (recover_expired_leases now t) p.1 job)
      (sym (claim-eq worker lease now t named positive)) (claim_next-Taken worker lease now t k)

-- With a named worker and a lease of at least one millisecond, on a table with distinct keys,
-- `claim` does not fail. It answers with nothing, and leaves the table as the recovery of expired
-- leases does, if no job is due then (waiting, with its time come); else it answers with the first due job by `available_at`
-- and `created_at`, which runs with one more attempt under the worker's lease until the lease's
-- length from now, with its first start kept. The answer shows its row in the table that `claim` leaves; the
-- rest of the job and all other jobs are as the recovery left them.
pub claim-Claimed :
    (worker : String) (lease now : ℕ) (t : Table)
    → nonempty worker ≡ true
    → 1 ≤ lease
    → IsKeyed t
    → (job : Option Job) × ((claim worker (whole lease) now t).0 ≡ ok job)
      × Claimed worker lease now
          (recover_expired_leases now t)
          (claim worker (whole lease) now t).1
          job
claim-Claimed worker lease now t named positive k =
    let (job, answered, c) = claim-Taken worker lease now t named positive k in
    (job, answered, Taken-Claimed worker lease now _ _ job c)

recover-get_row :
    (id : String) (now : ℕ) (t : Table) (r : Row)
    → get_row id t ≡ some r
    → expired now r ≡ false
    → get_row id (recover_expired_leases now t) ≡ some r
unfolding recover_expired_leases
recover-get_row id now t r e fresh =
    let after = get_row-update id (expired now) (orphan lease_expired now) t r (λ x. refl) e in
    rw fresh at after

-- The answer of `claim`, when it is known to be a job.
claimed_job-Taken :
    (worker : String) (lease now : ℕ) (t : Table) {job : Job}
    → nonempty worker ≡ true
    → 1 ≤ lease
    → IsKeyed t
    → (claim worker (whole lease) now t).0 ≡ ok (some job)
    → Taken worker lease now
        (recover_expired_leases now t)
        (claim worker (whole lease) now t).1
        (some job)
claimed_job-Taken worker lease now t {job} named positive k e =
    let (answer, answered, c) = claim-Taken worker lease now t named positive k in
    let same : answer ≡ some job = ok-injective (sym answered ∙ e) in
    subst
      (Taken worker lease now (recover_expired_leases now t) (claim worker (whole lease) now t).1)
      same c

-- With named workers, leases of at least one millisecond and a table with distinct keys: if one claim
-- hands out a job, and the next call is a claim by any worker before the lease of that job has run
-- out, then this claim does not hand out the same job.
pub claim_exclusive :
    (w v : String) (lease lease' now later : ℕ) (t : Table) {job job' : Job}
    → nonempty w ≡ true
    → nonempty v ≡ true
    → 1 ≤ lease
    → 1 ≤ lease'
    → IsKeyed t
    → later < now + lease
    → (claim w (whole lease) now t).0 ≡ ok (some job)
    → (claim v (whole lease') later (claim w (whole lease) now t).1).0 ≡ ok (some job')
    → job'.id ≢ job.id
claim_exclusive w v lease lease' now later t {job} {job'} nw nv p p' k soon e e' same =
    let u = (claim w (whole lease) now t).1 in
    let keyed : IsKeyed u = Steps-IsKeyed (claim-Steps {re = false} w (whole lease) now t) k in
    let (r, _, _, _, handed, rows) = claimed_job-Taken w lease now t nw p k e in
    let (s, found, is_ready, _, named, _) = claimed_job-Taken v lease' later u nv p' keyed e' in
    let held : get_row job.id u ≡ some (take_lease w lease now r) =
      rows job.id ∙ rw (ap (λ j. j.id) handed, eq_refl r.id) refl in
    let kept = recover-get_row job.id later u (take_lease w lease now r) held (ground arith) in
    let one : s ≡ take_lease w lease now r = some-injective (
      sym found
      ∙ ap (λ x. get_row x (recover_expired_leases later u)) (sym (ap (λ j. j.id) named) ∙ same)
      ∙ kept) in
    false≢true (subst (λ x. ready later x ≡ true) one is_ready)
