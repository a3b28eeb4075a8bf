-- ===== src/Workflow/Target/Placed.antt =====
-- What `Target::parse` of src/workflow.rs makes of the parts between the slashes.
use ci.Common.{
  ◌≡◌, refl, Bool, true, false, not, ◌&&◌, ◌||◌, List, [], ◌∷◌, Option, none, some, Text, text_eq,
  trim, map, all, is_empty, is_whitespace, if_cases, Bool-cases, Result, ok, err, if◌then◌else◌,
  ◌>>=◌, ◌==◌, arith, inl, inr, trimmed, lacks, trim_matches-Trimmed, all-trim_matches,
}
use ci.Workflow.Target.{
  Target, UsesError, empty_uses, empty_runner, uses_too_deep, star, parse_node, parse_vm, with_vm,
  parse_parts,
}

-- A part of a path as `parse` keeps it: not empty, without blanks around it or a slash in it.
abbrev pub tidy : Text → Bool
tidy s = trimmed is_whitespace s && lacks b'/' s

pub tidy-ne : (s : Text) → tidy s ≡ true → is_empty s ≡ false
tidy-ne [] h = cc
tidy-ne (c ∷ s) h = refl

-- A part that `parse` reads: it may be empty.
abbrev pub readable : Text → Bool
readable s = is_empty s || tidy s

readable-trim : (w : Text) → lacks b'/' w ≡ true → readable (trim w) ≡ true
readable-trim w h = elim (Bool-cases (is_empty (trim w))) [
  | inl e ↦ ground arith
  | inr e ↦ ground (
    arith,
    trim_matches-Trimmed is_whitespace w e,
    all-trim_matches (λ d. not (d == b'/')) is_whitespace w h,
  )
]

pub readable-parts :
    (ws : List Text) → all (lacks b'/') ws ≡ true → all readable (map trim ws) ≡ true
readable-parts [] h = refl
readable-parts (w ∷ ws) h =
    ground (arith, readable-trim w (ground arith), readable-parts ws (ground arith))

-- The targets that `parse` gives for a host.
pub data Placed : Target → Type 0 where
  any_host :
      (network : Text)
      → tidy network ≡ true
      → Placed (record { network = some network; node = none; vm = none; local = false })
  one_host :
      (network n : Text)
      → tidy network ≡ true
      → tidy n ≡ true
      → text_eq n star ≡ false
      → Placed (record { network = some network; node = some n; vm = none; local = false })
  one_vm :
      (network n v : Text)
      → tidy network ≡ true
      → tidy n ≡ true
      → text_eq n star ≡ false
      → tidy v ≡ true
      → text_eq v star ≡ false
      → Placed (record { network = some network; node = some n; vm = some v; local = false })

-- A result is an error or a target that `parse` can give for a host.
unfoldable pub Fine : Result UsesError Target → Type 0
Fine (err e) = Unit
Fine (ok t) = Placed t

parse_node-Fine :
    (raw n : Text) (rest : List Text) (next : Option Text → Result UsesError Target)
    → Fine (next none)
    → (text_eq n star ≡ false → is_empty n ≡ false → Fine (next (some n)))
    → Fine (parse_node raw (n ∷ rest) >>= next)
unfolding Fine
parse_node-Fine raw n rest next left_open named =
    if_cases (λ r. Fine (r >>= next)) (text_eq n star) (ok none)
      (if is_empty n then err (empty_runner raw) else ok (some n)) (λ e. left_open)
      (λ e.
        if_cases (λ r. Fine (r >>= next)) (is_empty n) (err (empty_runner raw)) (ok (some n))
          (λ d. tt) (λ d. named e d))

parse_vm-Fine :
    (raw v : Text) (rest : List Text) (next : Option Text → Result UsesError Target)
    → (text_eq v star ≡ false → is_empty v ≡ false → Fine (next (some v)))
    → Fine (parse_vm raw (v ∷ rest) >>= next)
unfolding Fine
parse_vm-Fine raw v rest next named =
    if_cases (λ r. Fine (r >>= next)) (is_empty v || text_eq v star) (err (empty_runner raw))
      (ok (some v)) (λ e. tt) (λ e. named (ground arith) (ground arith))

-- What `parse` makes of one, two and three parts, the first of which is not empty.
two_parts-Fine :
    (raw a b : Text)
    → tidy a ≡ true
    → readable b ≡ true
    → Fine (parse_node raw (b ∷ []) >>= λ node. with_vm raw a node none)
unfolding Fine
two_parts-Fine raw a b h k =
    parse_node-Fine raw b [] (λ node. with_vm raw a node none) (any_host a h)
      (λ d e. one_host a b h (ground arith) d)

three_parts-Fine :
    (raw a b c : Text)
    → tidy a ≡ true
    → readable b ≡ true
    → readable c ≡ true
    → Fine (
        parse_node raw (b ∷ c ∷ []) >>= λ node.
        parse_vm raw (c ∷ []) >>= λ vm. with_vm raw a node vm)
unfolding Fine
three_parts-Fine raw a b c h k l =
    parse_node-Fine raw b (c ∷ []) (λ node. parse_vm raw (c ∷ []) >>= λ vm. with_vm raw a node vm)
      (parse_vm-Fine raw c [] (with_vm raw a none) (λ d e. tt))
      (λ d e.
        parse_vm-Fine raw c [] (with_vm raw a (some b))
          (λ f g. one_vm a b c h (ground arith) d (ground arith) f))

first_part-Fine :
    (a : Text) (rest : Result UsesError Target)
    → readable a ≡ true
    → (tidy a ≡ true → Fine rest)
    → Fine (if is_empty a then err empty_uses else rest)
unfolding Fine
first_part-Fine a rest h next =
    if_cases Fine (is_empty a) (err empty_uses) rest (λ e. tt) (λ e. next (ground arith))

one_part-Fine : (raw a : Text) → tidy a ≡ true → Fine (with_vm raw a none none)
unfolding Fine
one_part-Fine raw a h = any_host a h

failed-Fine : (e : UsesError) → Fine (err e)
unfolding Fine
failed-Fine e = tt

pub parse_parts-Fine :
    (raw : Text) (parts : List Text) → all readable parts ≡ true → Fine (parse_parts raw parts)
unfolding parse_parts
parse_parts-Fine raw [] h = failed-Fine empty_uses
parse_parts-Fine raw (a ∷ []) h = first_part-Fine a _ (ground arith) (one_part-Fine raw a)
parse_parts-Fine raw (a ∷ b ∷ []) h =
    first_part-Fine a _ (ground arith) (λ t. two_parts-Fine raw a b t (ground arith))
parse_parts-Fine raw (a ∷ b ∷ c ∷ []) h =
    first_part-Fine a _ (ground arith)
      (λ t. three_parts-Fine raw a b c t (ground arith) (ground arith))
parse_parts-Fine raw (a ∷ b ∷ c ∷ d ∷ rest) h = failed-Fine (uses_too_deep raw)
