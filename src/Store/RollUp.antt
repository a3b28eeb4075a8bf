-- ===== src/Store/RollUp.antt =====
-- What `roll_up_run` and `worse_of` of src/store.rs make of the jobs of a run.
use ci.Common.{
  ◌≤◌, ◌≡◌, refl, Bool, true, false, List, [], ◌∷◌, any, all, is_empty, arith, ◌↔◌, In, inl, inr,
  ◌⊎◌, Bool-cases, Bool-ext,
}
use ci.Store.Status.{RunStatus, JobStatus, skipped, worse_of, rank}
use ci.Store.Rows.{rolled_up, is_cancelled, is_failure, is_passed}

-- The worst of the results, from a first one: the fold of `needs_context`.
abbrev pub worst : JobStatus → List JobStatus → JobStatus
worst a [] = a
worst a (b ∷ bs) = worst (worse_of a b) bs

rank-worse_of : (a b : JobStatus) → (rank a ≤ rank (worse_of a b)) × (rank b ≤ rank (worse_of a b))
unfolding worse_of
rank-worse_of a b = ground arith

-- The result of a `needs` entry is at least as bad as every cell's.
pub rank-worst :
    (a : JobStatus) (bs : List JobStatus)
    → (rank a ≤ rank (worst a bs)) × ((b : JobStatus) → In b bs → rank b ≤ rank (worst a bs))
rank-worst a [] = (omega arith, λ b m. absurd m)
rank-worst a (b ∷ bs) =
    let (above, each) = rank-worst (worse_of a b) bs in
    (
      omega (arith, rank-worse_of a b),
      λ c m. elim m [
        | inl e ↦ rw (← e) (omega (arith, above, rank-worse_of a b))
        | inr m' ↦ each c m'
      ],
    )

any-In :
    (p : JobStatus → Bool) (s : JobStatus) (ss : List JobStatus)
    → In s ss
    → p s ≡ true
    → any p ss ≡ true
any-In p s [] m h = absurd m
any-In p s (t ∷ ss) (inl e) h = rw (e, h)
any-In p s (t ∷ ss) (inr m) h = ground (arith, any-In p s ss m h)

any→In :
    (p : JobStatus → Bool) (ss : List JobStatus)
    → any p ss ≡ true
    → (s : JobStatus) × (In s ss) × (p s ≡ true)
any→In p [] h = cc
any→In p (t ∷ ss) h = elim (Bool-cases (p t)) [
  | inl e ↦ (t, inl refl, e)
  | inr e ↦ let (s, m, k) = any→In p ss (ground arith) in (s, inr m, k)
]

all→In :
    (p : JobStatus → Bool) (ss : List JobStatus)
    → all p ss ≡ true
    → (s : JobStatus) → In s ss
    → p s ≡ true
all→In p [] h s m = absurd m
all→In p (t ∷ ss) h s (inl e) = rw (← e) (ground arith)
all→In p (t ∷ ss) h s (inr m) = all→In p ss (ground arith) s m

In→all :
    (p : JobStatus → Bool) (ss : List JobStatus)
    → ((s : JobStatus) → In s ss → p s ≡ true)
    → all p ss ≡ true
In→all p [] h = refl
In→all p (t ∷ ss) h = ground (arith, h t (inl refl), In→all p ss (λ s m. h s (inr m)))

-- Lists with the same members pass the same tests.
abbrev pub SameMembers : List JobStatus → List JobStatus → Type 0
SameMembers ss ts = (s : JobStatus) → In s ss ↔ In s ts

any-SameMembers :
    (p : JobStatus → Bool) (ss ts : List JobStatus) → SameMembers ss ts → any p ss ≡ any p ts
any-SameMembers p ss ts same =
    Bool-ext (any p ss) (any p ts)
      (λ h. let (s, m, k) = any→In p ss h in any-In p s ts ((same s).0 m) k)
      (λ h. let (s, m, k) = any→In p ts h in any-In p s ss ((same s).1 m) k)

all-SameMembers :
    (p : JobStatus → Bool) (ss ts : List JobStatus) → SameMembers ss ts → all p ss ≡ all p ts
all-SameMembers p ss ts same =
    Bool-ext (all p ss) (all p ts) (λ h. In→all p ts (λ s m. all→In p ss h s ((same s).1 m)))
      (λ h. In→all p ss (λ s m. all→In p ts h s ((same s).0 m)))

is_empty-SameMembers : (ss ts : List JobStatus) → SameMembers ss ts → is_empty ss ≡ is_empty ts
is_empty-SameMembers [] [] same = refl
is_empty-SameMembers [] (t ∷ ts) same = absurd ((same t).1 (inl refl))
is_empty-SameMembers (s ∷ ss) [] same = absurd ((same s).0 (inl refl))
is_empty-SameMembers (s ∷ ss) (t ∷ ts) same = refl

-- The status of a run forgets the order and the number of its jobs: it depends on which statuses
-- occur among them, and on nothing else.
rolled_up-SameMembers : (ss ts : List JobStatus) → SameMembers ss ts → rolled_up ss ≡ rolled_up ts
unfolding rolled_up
rolled_up-SameMembers ss ts same = rw (is_empty-SameMembers ss ts same) (
    rw (any-SameMembers is_cancelled ss ts same)
      (rw (any-SameMembers is_failure ss ts same) (rw (all-SameMembers is_passed ss ts same))))

passed-ok :
    (ss : List JobStatus)
    → all is_passed ss ≡ true
    → (any is_cancelled ss ≡ false) × (any is_failure ss ≡ false)
passed-ok [] h = (refl, refl)
passed-ok (s ∷ ss) h = ground (arith, passed-ok ss)

-- A run passes exactly when each of its jobs passed or was skipped.
rolled_up-success_iff :
    (ss : List JobStatus)
    → (rolled_up ss ≡ RunStatus.success)
      ↔ ((s : JobStatus) → In s ss → (s ≡ JobStatus.success) ⊎ (s ≡ skipped))
unfolding rolled_up
rolled_up-success_iff ss = (
  λ h s m. passed_is s (all→In is_passed ss (only_if ss h) s m),
  λ h. if_all ss (In→all is_passed ss (λ s m. is_passed_of s (h s m))),
)
  where
    passed_is : (s : JobStatus) → is_passed s ≡ true → (s ≡ JobStatus.success) ⊎ (s ≡ skipped)
    passed_is s h = ground arith

    is_passed_of : (s : JobStatus) → (s ≡ JobStatus.success) ⊎ (s ≡ skipped) → is_passed s ≡ true
    is_passed_of s h = ground arith

    only_if : (ss : List JobStatus) → rolled_up ss ≡ RunStatus.success → all is_passed ss ≡ true
    only_if [] h = refl
    only_if (s ∷ ss) h = ground arith

    if_all : (ss : List JobStatus) → all is_passed ss ≡ true → rolled_up ss ≡ RunStatus.success
    if_all [] h = refl
    if_all (s ∷ ss) h = ground (arith, passed-ok (s ∷ ss) h)
