-- ===== src/Workflow/Target.antt =====
-- `Target` of src/workflow.rs: the `uses:` of a job, parsed and printed.
mod Placed
pub mod RoundTrip
use ci.Common.{
  ℕ, Bool, true, false, ◌&&◌, ◌||◌, List, [], ◌∷◌, ◌++◌, Option, none, some, Text, codes, text_eq,
  trim, split, map, is_empty, leb, ◌+◌, if◌then◌else◌, Result, ok, err, ◌>>=◌,
}

pub record Target : Type 0 where
  pub network : Option Text
  pub node : Option Text
  pub vm : Option Text
  pub local : Bool

-- The errors of `parse`, with the text that they quote.
pub data UsesError : Type 0 where
  empty_uses : UsesError
  uses_too_deep : Text → UsesError
  empty_runner : Text → UsesError
  vm_without_node : Text → UsesError

-- `DEFAULT_NODE`.
abbrev pub default_node : Text
default_node = codes "default"

-- `str::eq_ignore_ascii_case`.
abbrev lower : ℕ → ℕ
lower c = if leb b'A' c && leb c b'Z' then c + 32 else c

abbrev pub eq_ignore_case : Text → Text → Bool
eq_ignore_case a b = text_eq (map lower a) (map lower b)

abbrev pub star : Text
star = codes "*"

-- The second part: `*` leaves the host open.
abbrev parse_node : Text → List Text → Result UsesError (Option Text)
parse_node raw [] = ok none
parse_node raw (n ∷ rest) =
    if text_eq n star then ok none else if is_empty n then err (empty_runner raw) else ok (some n)

-- The third part.
abbrev parse_vm : Text → List Text → Result UsesError (Option Text)
parse_vm raw [] = ok none
parse_vm raw (v ∷ rest) =
    if is_empty v || text_eq v star then err (empty_runner raw) else ok (some v)

abbrev after_first : List Text → List Text
after_first [] = []
after_first (x ∷ xs) = xs

abbrev with_vm : Text → Text → Option Text → Option Text → Result UsesError Target
with_vm raw network none (some v) = err (vm_without_node raw)
with_vm raw network node vm =
    ok (record { network = some network; node = node; vm = vm; local = false })

-- What `parse` does with the parts between the slashes.
unfoldable pub parse_parts : Text → List Text → Result UsesError Target
parse_parts raw [] = err empty_uses
parse_parts raw (a ∷ b ∷ c ∷ d ∷ rest) = err (uses_too_deep raw)
parse_parts raw (network ∷ rest) = if is_empty network then err empty_uses else do
  node ← parse_node raw rest
  vm ← parse_vm raw (after_first rest)
  with_vm raw network node vm

unfoldable pub parse_target : Text → Result UsesError Target
unfolding parse_parts
parse_target text =
    let raw = trim text in
    if is_empty raw
    then err empty_uses
    else if eq_ignore_case raw default_node
    then ok (record { network = none; node = none; vm = none; local = true })
    else parse_parts raw (map trim (split b'/' raw))

-- `Target::any` and `is_existing_vm`.
unfoldable pub any_target : Target
any_target = record { network = none; node = none; vm = none; local = false }

unfoldable pub is_existing_vm : Target → Bool
is_existing_vm t = elim t.vm [ none ↦ false | some v ↦ true ]

abbrev show_place : Text → Option Text → Option Text → Text
show_place network (some n) (some v) = network ++ (b'/' ∷ (n ++ (b'/' ∷ v)))
show_place network (some n) none = network ++ (b'/' ∷ n)
show_place network none vm = network ++ codes "/*"

abbrev or_star : Option Text → Text
or_star none = star
or_star (some n) = n

-- The `Display` of a target.
unfoldable pub show_target : Target → Text
show_target t = if t.local then default_node else show_place (or_star t.network) t.node t.vm
