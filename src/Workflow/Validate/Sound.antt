-- ===== src/Workflow/Validate/Sound.antt =====
-- What a workflow that passes its validation is like.
use ci.Common.{
  ◌≡◌, true, false, not, List, [], ◌∷◌, Text, text_eq, map, arith, All, ok, >>=-eq-ok, require,
  require-eq-ok, map_err, map_err-eq-ok,
}
use ci.Bus.{is_subject_token}
use ci.Plan.Order.{member}
use ci.Workflow.Jobs.{Job, Workflow, job_target}
use ci.Workflow.Validate.{
  bad_job_id, bad_vm, bad_uses, unknown_need, self_need, duplicate_job, cycle, is_job_id,
  validate_vm, validate_needs, validate_job, validate_jobs, validate, ids_of, needs_of, all_differ,
}
use ci.Workflow.Validate.Cycle.{deps_from, find_cycle}
use ci.Workflow.Validate.Visits.{Finished}
use ci.Workflow.Validate.Finish.{find_cycle-Finished}

job_id-token : (id : Text) → is_job_id id ≡ true → is_subject_token id ≡ true
unfolding is_job_id is_subject_token
job_id-token id h = ground arith

-- Every need is another job's id.
NeedsKnown : Text → List Text → List Text → Type 0
NeedsKnown id ids needs = All (λ n. (member n ids ≡ true) × (text_eq n id ≡ false)) needs

validate_needs-Known :
    (id : Text) (ids needs : List Text)
    → validate_needs id ids needs ≡ ok tt
    → NeedsKnown id ids needs
unfolding NeedsKnown
validate_needs-Known id ids [] e = tt
validate_needs-Known id ids (n ∷ ns) e =
    let (t₁, known, e₁) = >>=-eq-ok (require (member n ids) (unknown_need id n)) _ e in
    let (t₂, other, e₂) = >>=-eq-ok (require (not (text_eq n id)) (self_need id)) _ e₁ in
    (
      (
        require-eq-ok (member n ids) (unknown_need id n) known,
        ground (arith, require-eq-ok _ _ other),
      ),
      validate_needs-Known id ids ns e₂,
    )

module _ {Y : Type 0} where
  -- What holds of each job, where `ids` are the ids of all jobs.
  abbrev pub IsJob : List Text → Text × Job Y → Type 0
  IsJob ids j =
      (is_subject_token j.0 ≡ true)
      × All (λ n. (member n ids ≡ true) × (text_eq n j.0 ≡ false)) j.1.needs

  validate_job-IsJob :
      (ids : List Text) (id : Text) (job : Job Y)
      → validate_job ids id job ≡ ok tt
      → IsJob ids (id, job)
  unfolding validate_job NeedsKnown
  validate_job-IsJob ids id job e =
      let (t₁, named, e₁) = >>=-eq-ok (require (is_job_id id) (bad_job_id id)) _ e in
      let (t₂, vm, e₂) = >>=-eq-ok (map_err (bad_vm id) (validate_vm job.vm)) _ e₁ in
      let (target, uses, e₃) = >>=-eq-ok (map_err (bad_uses id) (job_target job)) _ e₂ in
      let (t₄, needs, e₄) = >>=-eq-ok (validate_needs id ids job.needs) _ e₃ in
      (
        job_id-token id (require-eq-ok (is_job_id id) (bad_job_id id) named),
        validate_needs-Known id ids job.needs needs,
      )

  validate_jobs-IsJob :
      (ids : List Text) (jobs : List (Text × Job Y))
      → validate_jobs ids jobs ≡ ok tt
      → All (IsJob ids) jobs
  unfolding validate_jobs
  validate_jobs-IsJob ids [] e = tt
  validate_jobs-IsJob ids ((id, job) ∷ jobs) e =
      let (t, this, rest) = >>=-eq-ok (validate_job ids id job) _ e in
      (validate_job-IsJob ids id job this, validate_jobs-IsJob ids jobs rest)

  -- In a workflow that passes its validation no two jobs have the same id, each id can stand in a
  -- subject, each need is the id of another job, and there is an order of ids, the last one first,
  -- in which no id stands twice, every job has its id, and every id stands after its needs.
  pub validate-Ordered :
      (wf : Workflow Y)
      → validate wf ≡ ok tt
      → let deps = needs_of wf.jobs in
        (all_differ (ids_of wf.jobs) ≡ true)
        × All (IsJob (ids_of wf.jobs)) wf.jobs
        × ((order : List Text) × Finished (deps_from [] deps) order
            × All (λ id. member id order ≡ true) (map (λ d. d.0) deps))
  unfolding validate
  validate-Ordered wf e =
      let ids = ids_of wf.jobs in
      let deps = needs_of wf.jobs in
      let (t₁, distinct, e₁) = >>=-eq-ok (require (all_differ ids) duplicate_job) _ e in
      let (t₂, jobs, e₂) = >>=-eq-ok (validate_jobs ids wf.jobs) _ e₁ in
      (
        require-eq-ok (all_differ ids) duplicate_job distinct,
        validate_jobs-IsJob ids wf.jobs jobs,
        find_cycle-Finished deps (map_err-eq-ok cycle (find_cycle deps) e₂),
      )
