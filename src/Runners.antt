-- ===== src/Runners.antt =====
-- The hosts that jobs run on and the networks that group them: the lookups of src/runners.rs on
-- the snapshot that the refresh loop swaps in. The refresh itself asks the cloud and is not here.
use ci.Common.{
  Bool, true, false, ◌&&◌, ◌||◌, List, [], ◌∷◌, ◌++◌, Option, none, some, Text, codes, text_eq,
  trim, map, keep, find, if◌then◌else◌,
}
use ci.Workflow.Target.{eq_ignore_case}

pub data RunnerStatus : Type 0 where
  online stale offline orphaned : RunnerStatus

-- `is_dispatchable` and `as_str`.
unfoldable pub is_dispatchable : RunnerStatus → Bool
is_dispatchable online = true
is_dispatchable stale = false
is_dispatchable offline = false
is_dispatchable orphaned = false

unfoldable pub runner_status_text : RunnerStatus → Text
runner_status_text online = codes "online"
runner_status_text stale = codes "stale"
runner_status_text offline = codes "offline"
runner_status_text orphaned = codes "orphaned"

pub record Runner : Type 0 where
  pub id : Text
  pub name : Text
  pub status : RunnerStatus
  pub last_seen_at : Option Text

-- `Runner::matches`: the id exactly, the name whatever its case.
unfoldable pub runner_matches : Text → Runner → Bool
runner_matches needle r = text_eq r.id needle || eq_ignore_case r.name needle

pub record RunnerSet : Type 0 where
  pub network_id : Text
  pub network_name : Text
  pub is_default : Bool
  pub served : Bool
  pub runners : List Runner

-- `RunnerSet::find`, `dispatchable` and `matches`.
unfoldable pub find_runner : Text → RunnerSet → Option Runner
find_runner needle set = find (runner_matches needle) set.runners

unfoldable pub dispatchable : RunnerSet → List Runner
dispatchable set = keep (λ r. is_dispatchable r.status) set.runners

unfoldable pub network_matches : Text → RunnerSet → Bool
network_matches needle set = text_eq set.network_id needle || eq_ignore_case set.network_name needle

pub record Pool : Type 0 where
  pub networks : List RunnerSet
  pub unjoined : List Runner
  pub last_error : Option Text
  pub default_network_id : Text
  pub default_node_id : Text

abbrev pub first {ℓ} : {A : Type ℓ} → List A → Option A
first [] = none
first (x ∷ xs) = some x

abbrev pub or_else {ℓ} : {A : Type ℓ} → Option A → Option A → Option A
or_else (some a) b = some a
or_else none b = b

-- The operations of `Pool`.
unfoldable pub served : Pool → List RunnerSet
served pool = keep (λ n. n.served) pool.networks

unfoldable pub find_network : Text → Pool → Option RunnerSet
find_network needle pool = find (network_matches (trim needle)) pool.networks

unfoldable pub default_set : Pool → Option RunnerSet
unfolding served
default_set pool =
    or_else (find (λ n. n.served && text_eq n.network_id pool.default_network_id) pool.networks)
      (first (served pool))

abbrev flat_runners : List RunnerSet → List Runner
flat_runners [] = []
flat_runners (n ∷ ns) = n.runners ++ flat_runners ns

unfoldable pub all_runners : Pool → List Runner
unfolding served
all_runners pool = flat_runners (served pool)

-- The loop of `locate`, with what it has found so far.
unfoldable pub locate_loop :
    Text → Text → Option (RunnerSet × Runner) → List RunnerSet → Option (RunnerSet × Runner)
locate_loop default node found [] = found
locate_loop default node found (set ∷ sets) = elim (find (λ r. text_eq r.id node) set.runners) [
  | none ↦ locate_loop default node found sets
  | some runner ↦
      if text_eq set.network_id default
      then some (set, runner)
      else locate_loop default node (or_else found (some (set, runner))) sets
]

unfoldable pub locate : Text → Pool → Option (RunnerSet × Runner)
unfolding locate_loop served
locate node pool = locate_loop pool.default_network_id node none (served pool)

unfoldable pub served_names : Pool → List Text
unfolding served
served_names pool = map (λ n. n.network_name) (served pool)
