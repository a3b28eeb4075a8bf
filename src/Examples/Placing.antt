-- ===== src/Examples/Placing.antt =====
-- Placement and guards at concrete inputs.
use ci.Common.{◌≡◌, refl, arith, not, any, all, [], ◌∷◌, none, some, codes, ok}
use mathlib.Core.Path.{subst}
use ci.Json.{end, object}
use ci.Workflow.Jobs.{stay}
use ci.Bus.{to_network}
use ci.Runners.{
  Runner, find_network, find_runner, network_matches, runner_matches, dispatchable, is_dispatchable,
}
use ci.Dispatch.Place.{Placement, network_of, place, route_for, pick_runner, canonical}
use ci.Dispatch.Agreement.{Reads, IsServed, pick_runner-Reads, place-IsServed, place-renamed}
use ci.Dispatch.Guard.{needs_context, should_run}
use ci.Dispatch.Guard.Defaults.{should_run-default, cell_stops}
use ci.Dispatch.Advance.{needs_met, note_terminals}
use ci.Dispatch.Advance.Terminal.{needs_met-is_over, is_over}
use ci.Examples.Data.{world, pool, farm, big, twin, target_of, ship, built_row, ship_row}

abbrev on_big : Placement
on_big = record { network = farm; node = some big; vm = none }

abbrev on_twin : Placement
on_twin = record { network = farm; node = some twin; vm = none }

placed_on_big : place pool (target_of (some (codes "hd-1"))) stay ≡ ok on_big
unfolding place network_of find_network network_matches find_runner runner_matches
placed_on_big = refl

placed_on_twin : place pool (target_of (some (codes "hd-2"))) stay ≡ ok on_twin
unfolding place network_of find_network network_matches find_runner runner_matches
placed_on_twin = refl

routed : route_for pool (target_of none) stay ≡ ok (to_network (codes "net-1"))
unfolding route_for place network_of find_network network_matches
routed = refl

picked : pick_runner pool (target_of none) stay ≡ ok (codes "hd-1", none)
unfolding pick_runner place network_of find_network network_matches dispatchable is_dispatchable
picked = refl

farm_found : find_network (codes "farm") pool ≡ some farm
unfolding find_network network_matches
farm_found = refl

big_itself : find_runner (codes "big") farm ≡ some big
unfolding find_runner runner_matches
big_itself = refl

big_found : (r : Runner) → on_big.node ≡ some r → find_runner r.name farm ≡ some r
big_found r e =
    let same : big ≡ r = ground arith in
    subst (λ r. find_runner r.name farm ≡ some r) same big_itself

twin_found : find_runner (codes "Big") farm ≡ some big
unfolding find_runner runner_matches
twin_found = refl

pick_runner-Reads_example : Reads pool (to_network (codes "net-1")) (codes "hd-1")
pick_runner-Reads_example =
    pick_runner-Reads pool (target_of none) stay (to_network (codes "net-1")) (codes "hd-1") none
      routed picked

place-IsServed_example : IsServed pool farm
place-IsServed_example =
    place-IsServed pool (target_of (some (codes "hd-1"))) stay on_big placed_on_big

place-renamed_example :
    place pool (canonical (target_of (some (codes "hd-2"))) on_twin) stay ≡ ok on_big
place-renamed_example =
    place-renamed pool (target_of (some (codes "hd-2"))) stay on_twin twin big refl refl farm_found
      twin_found placed_on_twin

should_run-default_example :
    should_run world ship (needs_context (built_row ∷ ship_row ∷ [])) (object end)
    ≡ ok (not (any (λ n. any (cell_stops n) (built_row ∷ ship_row ∷ [])) ship.needs))
should_run-default_example =
    should_run-default world ship (built_row ∷ ship_row ∷ []) (object end) refl

needs_met-is_over_example :
    needs_met (note_terminals [] (built_row ∷ ship_row ∷ [])) ship.needs
    ≡ all (λ n. is_over n (built_row ∷ ship_row ∷ [])) ship.needs
needs_met-is_over_example = needs_met-is_over ship.needs (built_row ∷ ship_row ∷ [])
