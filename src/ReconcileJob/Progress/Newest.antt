-- ===== src/ReconcileJob/Progress/Newest.antt =====
-- The search for the newest job, against the list of the jobs.
use ansible_operator.Base.{
  ℕ, ◌≡◌, refl, ap, sym, ◌∙◌, ◌≤◌, true, Option, none, some, List, [], ◌∷◌, arith, ltb, All,
  if◌then◌else◌, Option-cases, Bool-cases, inl, inr, ◌⊎◌,
}
use ansible_operator.Kube.{Job}
use ansible_operator.ReconcileJob.Progress.{Started, later_job, newest_job}

-- The job has started no later than `n`.
abbrev pub NoLater : ℕ → Job → Type 0
NoLater n job = elim job.start_time [ none ↦ Unit | some t ↦ t ≤ n ]

-- The job is one of the list and started then.
abbrev pub IsStarted : Started → List Job → Type 0
IsStarted n [] = ⊥
IsStarted n (job ∷ jobs) = ((n.job ≡ job) × (job.start_time ≡ some n.time)) ⊎ IsStarted n jobs

-- What the search returns on `jobs`: a job that none started later than, or nothing, where none
-- has started.
abbrev pub IsNewest : Option Started → List Job → Type 0
IsNewest none jobs = All (λ job. job.start_time ≡ none) jobs
IsNewest (some n) jobs = IsStarted n jobs × All (NoLater n.time) jobs

NoLater-trans : (a b : ℕ) (job : Job) → a ≤ b → NoLater a job → NoLater b job
NoLater-trans a b job le h = elim (Option-cases job.start_time) [
  | inl idle ↦ rw idle tt
  | inr (time, start) ↦ ground arith
]

NoLater-start : (b time : ℕ) (job : Job) → job.start_time ≡ some time → time ≤ b → NoLater b job
NoLater-start b time job start le = rw start le

abbrev started : Job → ℕ → Started
started job time = record { job = job; time = time }

-- From a job `n` on, the search ends in a job `m` that is `n` or one of the list, and that neither
-- `n` nor any job of the list started later than.
abbrev Ends : Started → List Job → Started → Type 0
Ends n jobs m = (n.time ≤ m.time) × ((m ≡ n) ⊎ IsStarted m jobs) × All (NoLater m.time) jobs

Ends-later :
    (n : Started) (job : Job) (jobs : List Job) (time : ℕ) (m : Started)
    → job.start_time ≡ some time
    → ltb n.time time ≡ true
    → Ends (started job time) jobs m
    → Ends n (job ∷ jobs) m
Ends-later n job jobs time m start later (le, mem, all) = (
  ground arith,
  elim mem [
    | inl same ↦ inr (
        inl
          (ap (λ (n : Started). n.job) same, start ∙ ap (λ (n : Started). some n.time) (sym same)))
    | inr there ↦ inr (inr there)
  ],
  (rw start (ground arith), all),
)

Ends-kept :
    (n : Started) (job : Job) (jobs : List Job) (m : Started)
    → NoLater n.time job
    → Ends n jobs m
    → Ends n (job ∷ jobs) m
Ends-kept n job jobs m later (le, mem, all) = (
  le,
  elim mem [ inl same ↦ inl same | inr there ↦ inr (inr there) ],
  (NoLater-trans n.time m.time job le later, all),
)

later_job-idle : (o : Option Started) (job : Job) → job.start_time ≡ none → later_job o job ≡ o
unfolding later_job
later_job-idle o job idle = ground arith

later_job-first :
    (job : Job) (time : ℕ)
    → job.start_time ≡ some time
    → later_job none job ≡ some (started job time)
unfolding later_job
later_job-first job time start = ground arith

later_job-later :
    (n : Started) (job : Job) (time : ℕ)
    → job.start_time ≡ some time
    → later_job (some n) job ≡ (if ltb n.time time then some (started job time) else some n)
unfolding later_job
later_job-later n job time start = ground arith

newest_job_from :
    (jobs : List Job) (n : Started)
    → (m : Started) × (newest_job (some n) jobs ≡ some m) × Ends n jobs m
unfolding newest_job
newest_job_from [] n = (n, refl, (ground arith, inl refl, tt))
newest_job_from (job ∷ jobs) n = elim (Option-cases job.start_time) [
  | inl idle ↦
      let (m, e, ends) = newest_job_from jobs n in
      (m, rw (later_job-idle (some n) job idle) e, Ends-kept n job jobs m (rw idle tt) ends)
  | inr (time, start) ↦ elim (Bool-cases (ltb n.time time)) [
    | inl later ↦
        let (m, e, ends) = newest_job_from jobs (started job time) in
        (
          m,
          rw (later_job-later n job time start, later) e,
          Ends-later n job jobs time m start later ends,
        )
    | inr earlier ↦
        let (m, e, ends) = newest_job_from jobs n in
        (
          m,
          rw (later_job-later n job time start, earlier) e,
          Ends-kept n job jobs m (rw start (ground arith)) ends,
        )
  ]
]

IsNewest-idle :
    (o : Option Started) (job : Job) (jobs : List Job)
    → job.start_time ≡ none
    → IsNewest o jobs
    → IsNewest o (job ∷ jobs)
IsNewest-idle none job jobs idle h = (idle, h)
IsNewest-idle (some n) job jobs idle (mem, all) = (inr mem, (rw idle tt, all))

-- The loop over the jobs of a reconcile job finds the newest: a job of the list that has started,
-- and that no job of the list started later than; it finds none exactly where none has started.
pub newest_job-IsNewest : (jobs : List Job) → IsNewest (newest_job none jobs) jobs
unfolding newest_job
newest_job-IsNewest [] = tt
newest_job-IsNewest (job ∷ jobs) = elim (Option-cases job.start_time) [
  | inl idle ↦
      rw (later_job-idle none job idle)
        (IsNewest-idle (newest_job none jobs) job jobs idle (newest_job-IsNewest jobs))
  | inr (time, start) ↦
      let (m, e, (le, mem, all)) = newest_job_from jobs (started job time) in
      rw (later_job-first job time start, e)
        (
          elim mem [
            | inl same ↦ inl (
              ap (λ (n : Started). n.job) same,
              start ∙ ap (λ (n : Started). some n.time) (sym same),
            )
            | inr there ↦ inr there
          ],
          (NoLater-start m.time time job start le, all),
        )
]
