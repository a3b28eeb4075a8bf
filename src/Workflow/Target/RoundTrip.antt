-- ===== src/Workflow/Target/RoundTrip.antt =====
-- The printed form of a parsed `uses:` names the same target: `Target::parse` after `Display`.
use ci.Common.{
  ◌≡◌, refl, sym, ap, ◌∙◌, true, false, [], ◌∷◌, ◌++◌, none, some, Text, text_eq, text_eq→eq, trim,
  split, map, is_empty, is_whitespace, if_cases, if-false, Bool-cases, Result, ok, err,
  if◌then◌else◌, arith, inl, inr, trimmed, lacks, trim_matches-trimmed, trimmed-between,
  split-lacking, split-lacking-append, split-Lacks,
}
use mathlib.Core.Bool.{true≢false}
use mathlib.Core.Path.{subst}
use ci.Workflow.Target.{
  Target, UsesError, empty_uses, default_node, lower, eq_ignore_case, star, parse_parts,
  parse_target, show_target,
}
use ci.Workflow.Target.Placed.{
  tidy, tidy-ne, readable-parts, Placed, any_host, one_host, one_vm, Fine, parse_parts-Fine,
}

-- What is printed with a slash in it is not the word that names the default host.
slashed : (x y : Text) → lacks b'/' (map lower (x ++ (b'/' ∷ y))) ≡ false
slashed [] y = refl
slashed (c ∷ x) y = ground (arith, slashed x y)

not-default : (x y : Text) → eq_ignore_case (x ++ (b'/' ∷ y)) default_node ≡ false
not-default x y = elim (Bool-cases (eq_ignore_case (x ++ (b'/' ∷ y)) default_node)) [
  | inl e ↦
      let same =
        ap (lacks b'/') (text_eq→eq (map lower (x ++ (b'/' ∷ y))) (map lower default_node) e) in
      absurd (true≢false (sym same ∙ slashed x y))
  | inr e ↦ e
]

-- Reading back what is printed.
after_trim :
    (s : Text)
    → trim s ≡ s
    → is_empty s ≡ false
    → eq_ignore_case s default_node ≡ false
    → parse_target s ≡ parse_parts s (map trim (split b'/' s))
unfolding parse_target
after_trim s same e d =
    ap
      (λ raw.
        if is_empty raw
        then err empty_uses
        else if eq_ignore_case raw default_node
        then ok (record { network = none; node = none; vm = none; local = true })
        else parse_parts raw (map trim (split b'/' raw)))
      same
    ∙ if-false (is_empty s) _ _ e
    ∙ if-false (eq_ignore_case s default_node) _ _ d

is_empty-path : (x y : Text) → is_empty (x ++ (b'/' ∷ y)) ≡ false
is_empty-path [] y = refl
is_empty-path (c ∷ x) y = refl

reads :
    (x y : Text)
    → tidy x ≡ true
    → trimmed is_whitespace y ≡ true
    → parse_target (x ++ (b'/' ∷ y)) ≡ parse_parts (x ++ (b'/' ∷ y)) (x ∷ map trim (split b'/' y))
reads x y h k =
    let whole = trimmed-between is_whitespace x (b'/' ∷ []) y (ground arith) k in
    after_trim (x ++ (b'/' ∷ y)) (trim_matches-trimmed is_whitespace (x ++ (b'/' ∷ y)) whole)
      (is_empty-path x y) (not-default x y)
    ∙ ap (λ ws. parse_parts (x ++ (b'/' ∷ y)) (map trim ws))
        (split-lacking-append b'/' x y (ground arith))
    ∙ ap (λ w. parse_parts (x ++ (b'/' ∷ y)) (w ∷ map trim (split b'/' y)))
        (trim_matches-trimmed is_whitespace x (ground arith))

-- The parts that come back from one and from two tidy parts.
one_piece : (x : Text) → tidy x ≡ true → map trim (split b'/' x) ≡ x ∷ []
one_piece x h =
    ap (map trim) (split-lacking b'/' x (ground arith))
    ∙ ap (λ w. w ∷ []) (trim_matches-trimmed is_whitespace x (ground arith))

two_pieces :
    (x y : Text)
    → tidy x ≡ true
    → tidy y ≡ true
    → map trim (split b'/' (x ++ (b'/' ∷ y))) ≡ x ∷ y ∷ []
two_pieces x y h k =
    ap (map trim) (split-lacking-append b'/' x y (ground arith))
    ∙ ap (λ w. w ∷ map trim (split b'/' y)) (trim_matches-trimmed is_whitespace x (ground arith))
    ∙ ap (λ ws. x ∷ ws) (one_piece y k)

-- The tests of `parse` on tidy parts that are not `*`.
two_parts-ok :
    (raw a b : Text)
    → tidy a ≡ true
    → tidy b ≡ true
    → text_eq b star ≡ false
    → parse_parts raw (a ∷ b ∷ [])
      ≡ ok (record { network = some a; node = some b; vm = none; local = false })
unfolding parse_parts
two_parts-ok raw a b h k d = if-false (is_empty a) _ _ (tidy-ne a h) ∙ rw d (rw (tidy-ne b k) refl)

three_parts-ok :
    (raw a b c : Text)
    → tidy a ≡ true
    → tidy b ≡ true
    → text_eq b star ≡ false
    → tidy c ≡ true
    → text_eq c star ≡ false
    → parse_parts raw (a ∷ b ∷ c ∷ [])
      ≡ ok (record { network = some a; node = some b; vm = some c; local = false })
unfolding parse_parts
three_parts-ok raw a b c h k d l f =
    if-false (is_empty a) _ _ (tidy-ne a h) ∙ rw d (rw (tidy-ne b k) (rw (tidy-ne c l) (rw f refl)))

star_part-ok :
    (raw a : Text)
    → tidy a ≡ true
    → parse_parts raw (a ∷ star ∷ [])
      ≡ ok (record { network = some a; node = none; vm = none; local = false })
unfolding parse_parts
star_part-ok raw a h = if-false (is_empty a) _ _ (tidy-ne a h)

show-Placed : (t : Target) → Placed t → parse_target (show_target t) ≡ ok t
unfolding show_target
show-Placed _ (any_host a h) = reads a star h refl ∙ star_part-ok (a ++ (b'/' ∷ star)) a h
show-Placed _ (one_host a b h k d) =
    let raw = a ++ (b'/' ∷ b) in
    reads a b h (ground arith)
    ∙ ap (λ ws. parse_parts raw (a ∷ ws)) (one_piece b k)
    ∙ two_parts-ok raw a b h k d
show-Placed _ (one_vm a b c h k d l f) =
    let path = b ++ (b'/' ∷ c) in
    let raw = a ++ (b'/' ∷ path) in
    reads a path h (trimmed-between is_whitespace b (b'/' ∷ []) c (ground arith) (ground arith))
    ∙ ap (λ ws. parse_parts raw (a ∷ ws)) (two_pieces b c k l)
    ∙ three_parts-ok raw a b c h k d l f

-- The outcome of a parse is an error, or a target whose printed form parses to it again.
Again : Result UsesError Target → Type 0
Again (err e) = Unit
Again (ok t) = parse_target (show_target t) ≡ ok t

Fine-Again : (r : Result UsesError Target) → Fine r → Again r
unfolding Fine Again
Fine-Again (err e) h = tt
Fine-Again (ok t) h = show-Placed t h

local-Again : Again (ok (record { network = none; node = none; vm = none; local = true }))
unfolding Again show_target parse_target
local-Again = refl

parse_target-Again : (text : Text) → Again (parse_target text)
unfolding parse_target
parse_target-Again text =
    let raw = trim text in
    if_cases Again (is_empty raw) _ _ (λ e. unfold Again in tt)
      (λ e.
        if_cases Again (eq_ignore_case raw default_node) _ _ (λ d. local-Again)
          (λ d. Fine-Again (parse_parts raw (map trim (split b'/' raw))) (
            parse_parts-Fine raw (map trim (split b'/' raw))
              (readable-parts (split b'/' raw) (split-Lacks b'/' raw)))))

-- When `parse` accepts a text as a target, what `Display` prints for that target is accepted by
-- `parse`, as the same target.
pub parse_target-show_target :
    (text : Text) (t : Target) → parse_target text ≡ ok t → parse_target (show_target t) ≡ ok t
unfolding Again
parse_target-show_target text t came = subst Again came (parse_target-Again text)
