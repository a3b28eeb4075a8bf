-- ===== src/Examples/Matching.antt =====
-- Globs, filters, literals and names at concrete inputs.
use ci.Common.{◌≡◌, ◌≢◌, ◌↔◌, refl, true, false, some, [], ◌∷◌, codes, ok, err}
use ci.Paths.{match_segment, match_segments}
use ci.Paths.Segment.{glob, match_segment-eq-glob}
use ci.Paths.Glob.{Covers, match_segments_iff}
use ci.Workflow.Filter.{SubmitFilter}
use ci.Workflow.Target.{Target, parse_target, parse_parts, show_target}
use ci.Workflow.Target.RoundTrip.{parse_target-show_target}
use ci.Expr.Lexer.{tokenize, str, out_of_fuel}
use ci.Expr.Lexer.Literals.{tokenize-quoted_iff, quoted, is_ascii}
use ci.Expr.Eval.{eval}
use ci.Expr.Eval.Fuel.{eval-ne-out_of_fuel}
use ci.Expr.Lexer.Fuel.{tokenize-ne-out_of_fuel}
use ci.Bus.{to_runner, subject_for}
use ci.Bus.Names.{subject_for-injective}
use ci.Examples.Data.{world}

abbrev filter : SubmitFilter
filter = record {
  branches = codes "main" ∷ [];
  branches_ignore = [];
  paths = codes "api/**" ∷ [];
  paths_ignore = [];
}

match_segment-eq-glob_example :
    match_segment (codes "a*c?") (codes "abcd") ≡ glob (codes "a*c?") (codes "abcd")
match_segment-eq-glob_example = match_segment-eq-glob (codes "a*c?") (codes "abcd")

match_segments_iff_example :
    (match_segments (codes "src" ∷ codes "**" ∷ []) (codes "src" ∷ codes "a" ∷ []) ≡ true)
    ↔ Covers (codes "src" ∷ codes "**" ∷ []) (codes "src" ∷ codes "a" ∷ [])
match_segments_iff_example =
    match_segments_iff (codes "src" ∷ codes "**" ∷ []) (codes "src" ∷ codes "a" ∷ [])

abbrev one_machine : Target
one_machine = record {
  network = some (codes "lab");
  node = some (codes "box");
  vm = some (codes "db 1");
  local = false;
}

machine_parsed : parse_target (codes " lab /box/ db 1 ") ≡ ok one_machine
unfolding parse_target parse_parts
machine_parsed = refl

parse_target-show_target_example : parse_target (show_target one_machine) ≡ ok one_machine
parse_target-show_target_example =
    parse_target-show_target (codes " lab /box/ db 1 ") one_machine machine_parsed

tokenize-quoted_iff_example :
    (tokenize world (quoted (codes "héllo")) ≡ ok (str (codes "héllo") ∷ []))
    ↔ (is_ascii (codes "héllo") ≡ true)
tokenize-quoted_iff_example = tokenize-quoted_iff world (codes "héllo")

tokenize-ne-out_of_fuel_example : tokenize world (codes "a.b == 'c'") ≢ err out_of_fuel
tokenize-ne-out_of_fuel_example = tokenize-ne-out_of_fuel world (codes "a.b == 'c'")

named : subject_for (codes "ci") (to_runner (codes "hd-1")) ≡ ok (codes "ci.job.r.hd-1")
unfolding subject_for
named = refl

subject_for-injective_example : to_runner (codes "hd-1") ≡ to_runner (codes "hd-1")
subject_for-injective_example =
    subject_for-injective (codes "ci") (to_runner (codes "hd-1")) (to_runner (codes "hd-1"))
      (codes "ci.job.r.hd-1") named named

eval-ne-out_of_fuel_example : eval world [] (codes "format('{0}', 1) == '1'") ≢ err out_of_fuel
eval-ne-out_of_fuel_example = eval-ne-out_of_fuel world [] (codes "format('{0}', 1) == '1'")
