-- ===== src/Plan/Build/Distinct.antt =====
-- The keys of a plan: no two jobs have the same, and each can stand in a subject.
use mathlib.Core.Path.{subst}
use mathlib.Core.Logic.Or
use mathlib.Core.Bool.{Bool-set}
use mathlib.Core.List.{
  Perm, Nodup, Mem, Nodup-cons, Nodup-nil, not-mem-nil, eq-or-mem_of_mem-cons, perm_append_comm,
  append_assoc, append-nil, map-append,
}
use mathlib.Core.List.Perm
use ci.Common.{
  ℕ, suc, ◌≡◌, sym, ap, ◌∙◌, Bool, true, false, List, [], ◌∷◌, ◌++◌, Text, text_eq_refl, map, arith,
  All, Result, ok, err, ◌>>=◌, map_err, >>=-eq-ok, map_err-eq-ok,
}
use ci.Json.{Value}
use ci.Bus.{is_subject_token}
use ci.Expr.Values.{World}
use ci.Workflow.Target.{Target, UsesError}
use ci.Workflow.Jobs.{Job, Workflow, job_target}
use ci.Plan.Jobs.{JobPlan, Plan}
use ci.Plan.Keys.Fuel.{unique_key-IsFresh}
use ci.Plan.Keys.Tokens.{unique_key-is_subject_token}
use ci.Plan.Matrix.{Yaml, CellsError}
use ci.Plan.Order.{member, topological_order}
use ci.Plan.Order.Waves.{topological_order-Perm}
use ci.Plan.Build.{
  bad_uses, bad_cells, unordered, no_key, Planned, cell_plan, before_jobs, build_cells, build_jobs,
  build, substitute_matrix,
}

Mem-member : (x : Text) (xs : List Text) → Mem x xs → member x xs ≡ true
Mem-member x [] m = absurd (not-mem-nil m)
Mem-member x (y ∷ ys) m =
    Or.elim (Bool-set _ _) (eq-or-mem_of_mem-cons m) here (λ n. ground (arith, Mem-member x ys n))
  where
    here : x ≡ y → member x (y ∷ ys) ≡ true
    here e = ground (arith, text_eq_refl x, e)

member-Nodup : (x : Text) (xs : List Text) → member x xs ≡ false → Nodup xs → Nodup (x ∷ xs)
member-Nodup x xs h d = Nodup-cons.1 ((λ m. ground (arith, Mem-member x xs m)), d)

abbrev pub keys : {N : Type 0} → List (JobPlan N) → List Text
keys jobs = map (λ j. j.key) jobs

-- The cells that a loop made after the keys `used`: the keys that are used at the end are these
-- with the ones of the cells, none twice, and each key of a cell is a subject token.
Fits : {N : Type 0} → List Text → Planned N → Type 0
Fits used (err no_key) = ⊥
Fits used (err _) = Unit {0}
Fits used (ok built) =
    Perm built.1 (keys built.0 ++ used)
    × Nodup built.1
    × All (λ k. is_subject_token k ≡ true) (keys built.0)

tokens-append :
    (xs ys : List Text)
    → All (λ k. is_subject_token k ≡ true) xs
    → All (λ k. is_subject_token k ≡ true) ys
    → All (λ k. is_subject_token k ≡ true) (xs ++ ys)
tokens-append [] ys h k = k
tokens-append (x ∷ xs) ys h k = (h.0, tokens-append xs ys h.1 k)

Fits-before_jobs :
    {N : Type 0} (cells : List (JobPlan N)) (used used' : List Text) (rest : Planned N)
    → Perm used' (keys cells ++ used)
    → All (λ k. is_subject_token k ≡ true) (keys cells)
    → Fits used' rest
    → Fits used (before_jobs cells rest)
unfolding Fits
Fits-before_jobs cells used used' (err no_key) p t h = h
Fits-before_jobs cells used used' (err (bad_uses e)) p t h = tt
Fits-before_jobs cells used used' (err (bad_cells j e)) p t h = tt
Fits-before_jobs cells used used' (err (unordered e)) p t h = tt
Fits-before_jobs cells used used' (ok (more, last)) p t h = (
  Perm.trans h.0 (Perm.trans (Perm.append_left (keys more) p) swapped),
  h.1,
  subst (All (λ k. is_subject_token k ≡ true)) (sym (map-append (λ j. j.key) cells more))
      (tokens-append (keys cells) (keys more) t h.2),
)
  where
    swapped : Perm (keys more ++ (keys cells ++ used)) (keys (cells ++ more) ++ used)
    swapped =
        subst (λ l. Perm l (keys (cells ++ more) ++ used))
          (append_assoc (keys more) (keys cells) used)
          (Perm.append_right used (
            subst (Perm (keys more ++ keys cells)) (sym (map-append (λ j. j.key) cells more))
              (perm_append_comm (keys more) (keys cells))))

All-Mem :
    (P : Text → Bool) (xs : List Text)
    → All (λ x. P x ≡ true) xs
    → (x : Text) → Mem x xs
    → P x ≡ true
All-Mem P [] h x m = absurd (not-mem-nil m)
All-Mem P (y ∷ ys) h x m =
    Or.elim (Bool-set _ _) (eq-or-mem_of_mem-cons m) (λ e. ap P e ∙ h.0) (All-Mem P ys h.1 x)

-- What holds of the keys holds of the same jobs in another order.
ordered-keys :
    {N : Type 0} (built : List (JobPlan N) × List Text) (out : List (JobPlan N))
    → Perm built.1 (keys built.0 ++ [])
    → Nodup built.1
    → All (λ k. is_subject_token k ≡ true) (keys built.0)
    → Perm out built.0
    → Nodup (keys out) × ((k : Text) → Mem k (keys out) → is_subject_token k ≡ true)
ordered-keys built out perm distinct tokens p =
    let same : Perm (keys built.0) (keys out) = Perm.symm (Perm.map (λ j. j.key) p) in
    (
      Perm.nodup same (Perm.nodup (subst (Perm built.1) (append-nil (keys built.0)) perm) distinct),
      λ k m. All-Mem is_subject_token (keys built.0) tokens k ((Perm.mem_iff same).1 m),
    )

module _ (w : World) (yaml : Yaml w.Number)
    (value_eq : Value w.Number → Value w.Number → Bool) where
  open w use {Number, json_text}
  open yaml use {Y}

  target-Fits :
      (id : Text) (job : Job Y) (matrix : List (Text × Value Number)) (key : Text)
      (used : List Text)
      → (found : Result UsesError Target) (rest : Planned Number) → is_subject_token key ≡ true
      → Fits (key ∷ used) rest
      → Fits used (
          map_err bad_uses found >>= λ target.
          before_jobs
            (substitute_matrix w (cell_plan w yaml value_eq id job matrix key target) ∷ [])
            rest)
  unfolding Fits substitute_matrix cell_plan
  target-Fits id job matrix key used (err e) rest t h = tt
  target-Fits id job matrix key used (ok target) rest t h =
      let cell = substitute_matrix w (cell_plan w yaml value_eq id job matrix key target) in
      Fits-before_jobs (cell ∷ []) used (key ∷ used) rest Perm.rfl (t, tt) h

  build_cells-Fits :
      (id : Text) (job : Job Y) (cells : List (List (Text × Value Number))) (index : ℕ)
      (used : List Text)
      → is_subject_token id ≡ true
      → Nodup used
      → Fits used (build_cells w yaml value_eq id job cells index used)
  unfolding Fits build_cells
  build_cells-Fits id job [] index used t d = (Perm.rfl, d, tt)
  build_cells-Fits id job (matrix ∷ cells) index used t d =
      let (key, found, fresh) = unique_key-IsFresh json_text id matrix index used in
      rw (found, Fits)
        (target-Fits id job matrix key used (job_target job) _
          (unique_key-is_subject_token json_text id matrix index used t found)
          (build_cells-Fits id job cells (suc index) (key ∷ used) t
            (member-Nodup key used fresh d)))

  -- Both loops thread the used keys through.
  built-Fits :
      (used : List Text) (built : Planned Number) (next : List Text → Planned Number)
      → ((used' : List Text) → Nodup used' → Fits used' (next used'))
      → Fits used built
      → Fits used (built >>= λ b. before_jobs b.0 (next b.1))
  unfolding Fits
  built-Fits used (err no_key) next f h = h
  built-Fits used (err (bad_uses e)) next f h = tt
  built-Fits used (err (bad_cells j e)) next f h = tt
  built-Fits used (err (unordered e)) next f h = tt
  built-Fits used (ok (cells, used')) next f h =
      Fits-before_jobs cells used used' (next used') h.0 h.2 (f used' h.1)

  cells-Fits :
      (id : Text) (job : Job Y) (used : List Text) (next : List Text → Planned Number)
      (found : Result CellsError (List (List (Text × Value Number))))
      → is_subject_token id ≡ true
      → Nodup used
      → ((used' : List Text) → Nodup used' → Fits used' (next used'))
      → Fits used (
          map_err (bad_cells id) found >>= λ cells.
          build_cells w yaml value_eq id job cells 0 used >>= λ b. before_jobs b.0 (next b.1))
  unfolding Fits
  cells-Fits id job used next (err e) t d f = tt
  cells-Fits id job used next (ok cells) t d f =
      built-Fits used _ next f (build_cells-Fits id job cells 0 used t d)

  build_jobs-Fits :
      (jobs : List (Text × Job Y)) (used : List Text)
      → All (λ j. is_subject_token j.0 ≡ true) jobs
      → Nodup used
      → Fits used (build_jobs w yaml value_eq jobs used)
  unfolding Fits build_jobs
  build_jobs-Fits [] used t d = (Perm.rfl, d, tt)
  build_jobs-Fits ((id, job) ∷ jobs) used t d =
      cells-Fits id job used (build_jobs w yaml value_eq jobs) _ t.0 d
        (λ used'. build_jobs-Fits jobs used' t.1)

  -- If each id of the workflow's jobs can stand in a subject, then the jobs of a plan have keys that
  -- are all different, and each key can stand in a subject, too.
  pub build-keys :
      (wf : Workflow Y)
      → All (λ j. is_subject_token j.0 ≡ true) wf.jobs
      → {plan : Plan Number} → build w yaml value_eq wf ≡ ok plan
      → Nodup (keys plan.jobs) × ((k : Text) → Mem k (keys plan.jobs) → is_subject_token k ≡ true)
  unfolding build Fits
  build-keys wf t {plan} e =
      let (built, made, e₂) = >>=-eq-ok (build_jobs w yaml value_eq wf.jobs []) _ e in
      let (ordered, order, e₃) = >>=-eq-ok (map_err unordered (topological_order built.0)) _ e₂ in
      let (perm, distinct, tokens) =
        subst (Fits []) made (build_jobs-Fits wf.jobs [] t Nodup-nil) in
      ordered-keys built plan.jobs perm distinct tokens
        (topological_order-Perm built.0 plan.jobs
          (map_err-eq-ok unordered (topological_order built.0) (ground arith))).0
