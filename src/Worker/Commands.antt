-- ===== src/Worker/Commands.antt =====
-- The texts that go into a guest and come back: `wrap_command`, `split_outputs` and the scripts of
-- `checkout` in src/dispatch.rs, `combined` of src/vm.rs, and `Step::label` of src/workflow.rs.

use ci.Common.{
  ℕ, zero, suc, ◌+◌, ◌-◌, ◌^◌, Bool, not, ◌&&◌, List, [], ◌∷◌, ◌++◌, Option, none, some, Text,
  codes, trim, is_whitespace, is_empty, ends_with, strip_prefix, drop_while, replace, decimal,
  split, length, find, ltb, leb, ◌==◌, if◌then◌else◌,
}
use mathlib.Core.List.{reverse}
use mathlib.Core.Option
use ci.Json.{Value, string, map_insert}
use ci.Workflow.Jobs.{Step}
use ci.Worker.Machine.{ExecOutput, SourceFormat, tar_gz, git_bundle}

-- `DEFAULT_WORKDIR`.
abbrev pub default_workdir : Text
default_workdir = codes "/workspace"

abbrev quote_mark : Text
quote_mark = 39 ∷ []

-- `shell_quote`.
unfoldable pub shell_quote : Text → Text
shell_quote s = quote_mark ++ (replace quote_mark (codes "'\\''") s ++ quote_mark)

unfoldable pub output_marker : Text → Text
output_marker step_id = codes "::ci-output::" ++ (step_id ++ codes "::")

unfoldable pub wrap_command : Text → Step → Text → Text → Text
unfolding shell_quote output_marker
wrap_command script step step_id default_wd =
    codes "export CI_OUTPUT=\"${CI_OUTPUT:-/tmp/ci-output-"
    ++ (step_id
        ++ (codes "}\"; : > \"$CI_OUTPUT\"; cd "
            ++ (shell_quote (Option.get_or step.working_directory default_wd)
                ++ (codes " && { "
                    ++ (script
                        ++ (codes "\n}; __ci_rc=$?; printf '\\n%s\\n' '"
                            ++ (output_marker step_id
                                ++ codes "'; cat \"$CI_OUTPUT\" 2>/dev/null; exit $__ci_rc")))))))

-- `ExecOutput::combined` and `succeeded`.
unfoldable pub combined : ExecOutput → Text
combined out =
    if not (is_empty out.output)
    then out.output
    else if is_empty out.stderr
    then out.stdout
    else if not (is_empty out.stdout) && not (ends_with out.stdout (codes "\n"))
    then out.stdout ++ (codes "\n" ++ out.stderr)
    else out.stdout ++ out.stderr

unfoldable pub succeeded : ExecOutput → Bool
succeeded out = out.exit_code == 0

-- `i32::to_string` of the pattern.
abbrev pub exit_text : ℕ → Text
exit_text code = if ltb code (2 ^ 31) then decimal code else b'-' ∷ decimal (2 ^ 32 - code)

-- `str::rfind` of a text, and `split_at` there: what is before the last place where it stands, and
-- what is behind it.
abbrev keep_char : ℕ → Option (Text × Text) → Option (Text × Text) → Option (Text × Text)
keep_char c here (some (before, after)) = some (c ∷ before, after)
keep_char c here none = here

abbrev here : Option Text → Option (Text × Text)
here none = none
here (some after) = some ([], after)

unfoldable pub split_last : Text → Text → Option (Text × Text)
split_last marker [] = here (strip_prefix marker [])
split_last marker (c ∷ s) = keep_char c (here (strip_prefix marker (c ∷ s))) (split_last marker s)

-- `str::lines`: a line ends with `\n` or `\r\n`, and the last one need not.
abbrev drop_return : Text → Text
drop_return [] = []
drop_return (c ∷ []) = if c == 13 then [] else c ∷ []
drop_return (c ∷ d ∷ s) = c ∷ drop_return (d ∷ s)

abbrev lines_of : List Text → List Text
lines_of [] = []
lines_of (w ∷ []) = if is_empty w then [] else w ∷ []
lines_of (w ∷ v ∷ ws) = drop_return w ∷ lines_of (v ∷ ws)

unfoldable pub lines : Text → List Text
lines s = lines_of (split 10 s)

-- `split_once('=')`.
unfoldable pub split_once : ℕ → Text → Option (Text × Text)
split_once sep [] = none
split_once sep (c ∷ s) =
    let rest = split_once sep s in
    if c == sep then some ([], s) else elim rest [ none ↦ none | some (k, v) ↦ some (c ∷ k, v) ]

abbrev pub trim_end : Text → Text
trim_end s = reverse (drop_while is_whitespace (reverse s))

module _ {N : Type 0} where
  abbrev add_pair : Option (Text × Text) → List (Text × Value N) → List (Text × Value N)
  add_pair none m = m
  add_pair (some (k, v)) m = if is_empty (trim k) then m else map_insert (trim k) (string v) m

  unfoldable pub outputs_from : List (Text × Value N) → List Text → List (Text × Value N)
  unfolding split_once
  outputs_from m [] = m
  outputs_from m (line ∷ rest) = outputs_from (add_pair (split_once b'=' line) m) rest

  abbrev split_at_marker : Text → Option (Text × Text) → Text × List (Text × Value N)
  unfolding outputs_from lines
  split_at_marker text none = (text, [])
  split_at_marker text (some (before, tail)) = (trim_end before, outputs_from [] (lines tail))

  unfoldable pub split_outputs : ExecOutput → Text → Text × List (Text × Value N)
  unfolding combined output_marker split_last outputs_from lines
  split_outputs out step_id =
      split_at_marker (combined out) (split_last (output_marker step_id) (combined out))

-- `trim_end_matches('/')`.
abbrev trim_slashes : Text → Text
trim_slashes s = reverse (drop_while (λ c. c == b'/') (reverse s))

unfoldable pub remote_path : Text → SourceFormat → Text
remote_path workdir tar_gz = trim_slashes workdir ++ codes "/.ci-source.tar.gz"
remote_path workdir git_bundle = trim_slashes workdir ++ codes "/.ci-source.bundle"

abbrev pub find_rest : Text
find_rest = codes " -exec rm -rf {} +; "

unfoldable pub checkout_script : Text → SourceFormat → Text
unfolding shell_quote remote_path
checkout_script workdir tar_gz =
    let wd = shell_quote workdir in
    let src = shell_quote (remote_path workdir tar_gz) in
    codes "set -e; mkdir -p "
    ++ (wd
        ++ (codes "; find "
            ++ (wd
                ++ (codes " -mindepth 1 -maxdepth 1 ! -name .ci-source.tar.gz"
                    ++ (find_rest
                        ++ (codes "tar -xzf "
                            ++ (src
                                ++ (codes " -C "
                                    ++ (wd
                                        ++ (codes "; rm -f "
                                            ++ (src
                                                ++ (codes "; ls -a "
                                                    ++ (wd ++ codes " | head -50")))))))))))))
checkout_script workdir git_bundle =
    let wd = shell_quote workdir in
    let tmp = shell_quote (trim_slashes workdir ++ codes "/.ci-clone") in
    let src = shell_quote (remote_path workdir git_bundle) in
    codes
      "set -e; command -v git >/dev/null 2>&1 || { echo '[ci] this run submitted a git bundle, but the guest image has no git. Add it to the vm setup_hooks, or submit with `git submit --archive`.' >&2; exit 127; }; mkdir -p "
    ++ (wd
        ++ (codes "; rm -rf "
            ++ (tmp
                ++ (codes "; git -c core.hooksPath=/nonexistent clone --quiet "
                    ++ (src
                        ++ (32
                            ∷ (tmp
                                ++ (codes "; find "
                                    ++ (wd
                                        ++ (codes
                                              " -mindepth 1 -maxdepth 1 ! -name .ci-clone ! -name .ci-source.bundle"
                                            ++ (find_rest
                                                ++ (codes "tar -C "
                                                    ++ (tmp
                                                        ++ (codes " -cf - . | tar -C "
                                                            ++ (wd
                                                            ++ (codes " -xf -; rm -rf "
                                                            ++ (tmp
                                                            ++ (32
                                                            ∷ (src
                                                            ++ (codes "; git -C "
                                                            ++ (wd
                                                            ++ (codes " log --oneline -1; ls -a "
                                                            ++ (wd
                                                            ++ codes
                                                            " | head -50")))))))))))))))))))))))

-- `truncate` and `Step::label` of src/workflow.rs.
abbrev take_first : ℕ → Text → Text
take_first zero s = []
take_first (suc n) [] = []
take_first (suc n) (c ∷ s) = c ∷ take_first n s

unfoldable pub truncate : Text → ℕ → Text
truncate s max = if leb (length s) max then s else take_first (max - 1) s ++ codes "…"

abbrev first_line : Text → Text
unfolding lines
first_line run = trim (Option.get_or (find (λ l. not (is_empty (trim l))) (lines run)) [])

abbrev label_of : Option Text → Option Text → Option Text → ℕ → Text
unfolding truncate lines
label_of (some n) uses run index = n
label_of none (some u) run index = u
label_of none none (some r) index = truncate (first_line r) 60
label_of none none none index = codes "step " ++ decimal (index + 1)

unfoldable pub label : Step → ℕ → Text
unfolding truncate lines
label step index = label_of step.name step.uses step.run index
