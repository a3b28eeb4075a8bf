-- ===== src/Workflow/Filter/Laws.antt =====
-- What the filters of `on: submit:` promise.
use ci.Common.{◌≡◌, ◌≢◌, true, List, [], ◌∷◌, Text, any, all, ok, arith, inl, inr, In}
use ci.Paths.{matches}
use ci.Paths.Changes.{Changes, Reason, known, unknown, matches_any, all_match}
use ci.Workflow.Filter.{SubmitFilter, admits}

-- With no usable diff the path filters decide nothing: the answer is that of the branch filters
-- alone, whatever is said to have changed.
admits-unknown :
    (f : SubmitFilter) (branch : Text) (r : Reason) (c : Changes)
    → admits f branch (unknown r) ≡ admits (record f { paths = []; paths_ignore = [] }) branch c
unfolding admits matches_any all_match
admits-unknown f branch r (known paths) = ground arith
admits-unknown f branch r (unknown s) = ground arith

any-any_more :
    (pats ps : List Text) (p : Text)
    → any (λ pat. any (λ q. matches pat q) ps) pats ≡ true
    → any (λ pat. any (λ q. matches pat q) (p ∷ ps)) pats ≡ true
any-any_more [] ps p h = h
any-any_more (pat ∷ pats) ps p h = ground (arith, any-any_more pats ps p)

-- A change of at least one path that is admitted stays admitted when one more path changes
-- with it.
admits-more :
    (f : SubmitFilter) (branch p : Text) (ps : List Text)
    → ps ≢ []
    → admits f branch (known ps) ≡ ok tt
    → admits f branch (known (p ∷ ps)) ≡ ok tt
unfolding admits matches_any all_match
admits-more f branch p ps some_path h = ground (arith, any-any_more f.paths ps p)

-- Every path in the list has a pattern that covers it.
all-any→In :
    (pats ps : List Text)
    → all (λ q. any (λ pat. matches pat q) pats) ps ≡ true
    → (p : Text) → In p ps
    → any (λ pat. matches pat p) pats ≡ true
all-any→In pats [] h p m = absurd m
all-any→In pats (q ∷ ps) h p (inl e) = ground arith
all-any→In pats (q ∷ ps) h p (inr m) = all-any→In pats ps (ground arith) p m
