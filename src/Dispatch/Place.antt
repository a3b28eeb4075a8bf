-- ===== src/Dispatch/Place.antt =====
-- Where a job runs: `place` of src/dispatch.rs and the three callers that must agree on it, which
-- are the queue of a job, the runner that is picked for it, and the check at submit time.
use ci.Common.{
  Bool, true, false, not, ◌&&◌, List, [], ◌∷◌, ◌++◌, Option, none, some, Text, trim, is_empty,
  if◌then◌else◌, Result, ok, err, ◌>>=◌,
}
use ci.Workflow.Target.{Target}
use ci.Workflow.Jobs.{Fallback, stay, anywhere}
use ci.Plan.Jobs.{JobPlan}
use ci.Bus.{Route, to_runner, to_network}
use ci.Runners.{
  Runner, RunnerSet, RunnerStatus, Pool, is_dispatchable, find_runner, dispatchable, find_network,
  default_set, locate, served_names, first,
}

-- The variants of `DispatchError` that placement and the guard of a job raise.
pub data DispatchError : Type 0 where
  no_network : DispatchError
  unserved_network : Text → List Text → DispatchError
  unknown_network : Text → List Text → DispatchError
  no_default_node : DispatchError
  default_node_unserved : Text → List Text → DispatchError
  unknown_runner : Text → Text → DispatchError
  runner_offline : Text → RunnerStatus → DispatchError
  no_online_runner : Text → DispatchError

pub record Placement : Type 0 where
  pub network : RunnerSet
  pub node : Option Runner
  pub vm : Option Text

unfoldable pub network_of : Pool → Target → Result DispatchError RunnerSet
network_of pool target = elim target.network [
  | none ↦ elim (default_set pool) [ none ↦ err no_network | some set ↦ ok set ]
  | some name ↦ elim (find_network (trim name) pool) [
    | none ↦ err (unknown_network (trim name) (served_names pool))
    | some set ↦
        if set.served then ok set else err (unserved_network set.network_name (served_names pool))
  ]
]

abbrev pub is_anywhere : Fallback → Bool
is_anywhere stay = false
is_anywhere anywhere = true

abbrev pub is_none {ℓ} : {A : Type ℓ} → Option A → Bool
is_none none = true
is_none (some a) = false

-- The last part of `place`: the host that `uses:` names within its network.
abbrev pub place_in : Target → Fallback → RunnerSet → Result DispatchError Placement
place_in target fallback network = elim target.node [
  | none ↦ ok (record { network = network; node = none; vm = none })
  | some wanted ↦ elim (find_runner wanted network) [
    | some node ↦ ok (record { network = network; node = some node; vm = target.vm })
    | none ↦
        if is_anywhere fallback && is_none target.vm
        then ok (record { network = network; node = none; vm = none })
        else err (unknown_runner wanted network.network_name)
  ]
]

unfoldable pub place : Pool → Target → Fallback → Result DispatchError Placement
place pool target fallback =
    if target.local
    then if is_empty pool.default_node_id
      then err no_default_node
      else elim (locate pool.default_node_id pool) [
        | none ↦ err (default_node_unserved pool.default_node_id (served_names pool))
        | some (network, node) ↦ ok (record { network = network; node = some node; vm = target.vm })
      ]
    else network_of pool target >>= place_in target fallback

abbrev pub route_of : Placement → Result DispatchError Route
route_of p = elim p.node [
  | some node ↦ ok (to_runner node.id)
  | none ↦
      if is_empty p.network.network_id then err no_network else ok (to_network p.network.network_id)
]

unfoldable pub route_for : Pool → Target → Fallback → Result DispatchError Route
route_for pool target fallback = place pool target fallback >>= route_of

abbrev pub runner_of : Placement → Result DispatchError (Text × Option Text)
runner_of p = elim p.node [
  | some node ↦
      if is_dispatchable node.status
      then ok (node.id, p.vm)
      else err (runner_offline node.name node.status)
  | none ↦ elim (first (dispatchable p.network)) [
    | none ↦ err (no_online_runner p.network.network_name)
    | some r ↦ ok (r.id, p.vm)
  ]
]

unfoldable pub pick_runner : Pool → Target → Fallback → Result DispatchError (Text × Option Text)
pick_runner pool target fallback = place pool target fallback >>= runner_of

-- One turn of the loop of `assign_network`: the target with the repository's network, then with
-- the canonical names of where it resolves, and whether its host is to be warned of.
abbrev pub with_default : Option Text → Target → Target
with_default default target =
    if is_none target.network && not target.local && not (is_none default)
    then record target { network = default }
    else target

abbrev pub canonical : Target → Placement → Target
canonical target p = record target {
  network = some p.network.network_name;
  node = elim p.node [ none ↦ target.node | some n ↦ some n.name ];
}

abbrev pub warned : Placement → List Text
warned p = elim p.node [ none ↦ [] | some n ↦ if is_dispatchable n.status then [] else n.name ∷ [] ]

unfoldable pub assign_target :
    Pool → Option Text → Target → Fallback → Result DispatchError (Target × List Text)
assign_target pool default target fallback =
    place pool (with_default default target) fallback >>= λ p.
    ok (canonical (with_default default target) p, warned p)

-- `assign_network`: every job, up to the first that is refused; the hosts to warn of in order.
unfoldable pub assign_network :
    {N : Type 0}
    → Pool
    → Option Text
    → List (JobPlan N)
    → Result DispatchError (List (JobPlan N) × List Text)
unfolding assign_target
assign_network pool default [] = ok ([], [])
assign_network pool default (job ∷ jobs) = do
  assigned ← assign_target pool default job.target job.fallback
  rest ← assign_network pool default jobs
  ok (record job { target = assigned.0 } ∷ rest.0, assigned.1 ++ rest.1)
