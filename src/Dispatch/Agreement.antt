-- ===== src/Dispatch/Agreement.antt =====
-- That the callers of `place` in src/dispatch.rs agree: a job is routed to a queue that the runner
-- picked for it reads, and the names that a submit writes into a plan resolve to the same place.
use ci.Common.{
  ◌≡◌, refl, ◌⊎◌, inl, inr, Bool, true, false, ◌&&◌, List, [], ◌∷◌, Option, none, some, Text,
  text_eq, trim, keep, find, ok, ◌>>=◌, >>=-eq-ok, arith, In, Bool-cases, Option-cases,
}
use mathlib.Core.Path.{subst}
use ci.Workflow.Target.{Target}
use ci.Workflow.Jobs.{Fallback}
use ci.Runners.{
  Runner, RunnerSet, Pool, is_dispatchable, find_runner, dispatchable, find_network, default_set,
  locate, locate_loop, served, first, or_else, network_matches,
}
use ci.Bus.{Route, to_runner, to_network}
use ci.Dispatch.Place.{
  Placement, network_of, place, route_for, pick_runner, place_in, route_of, runner_of, is_anywhere,
  is_none, canonical,
}

-- The runner takes jobs of a queue: it is the queue's own, or a host that is online in a served
-- network of the pool that the queue is for.
abbrev pub Reads : Pool → Route → Text → Type 0
Reads pool (to_runner k) id = k ≡ id
Reads pool (to_network k) id =
    (set : RunnerSet) × (r : Runner) × In set pool.networks
    × (set.served ≡ true)
    × (set.network_id ≡ k)
    × In r set.runners
    × (is_dispatchable r.status ≡ true)
    × (r.id ≡ id)

module _ {A : Type 0} where
  first-keep-In :
      (p : A → Bool) (xs : List A) (x : A) → first (keep p xs) ≡ some x → In x xs × (p x ≡ true)
  first-keep-In p [] x h = cc
  first-keep-In p (y ∷ ys) x h = elim (Bool-cases (p y)) [
    | inl e ↦ ground arith
    | inr e ↦ let ih = first-keep-In p ys x in ground arith
  ]

  pub find-In : (p : A → Bool) (xs : List A) (x : A) → find p xs ≡ some x → In x xs × (p x ≡ true)
  find-In p [] x h = cc
  find-In p (y ∷ ys) x h = elim (Bool-cases (p y)) [
    | inl e ↦ ground arith
    | inr e ↦ let ih = find-In p ys x in ground arith
  ]

  pub keep-In : (p : A → Bool) (xs : List A) (x : A) → In x (keep p xs) → In x xs × (p x ≡ true)
  keep-In p [] x m = absurd m
  keep-In p (y ∷ ys) x m = elim (Bool-cases (p y)) [
    | inl e ↦ let ih = keep-In p ys x in ground arith
    | inr e ↦ let ih = keep-In p ys x in ground arith
  ]

route_of-Reads :
    (pool : Pool) (net : RunnerSet) (node : Option Runner) (v : Option Text) (q : Route) (id : Text)
    (vm : Option Text)
    → In net pool.networks
    → net.served ≡ true
    → route_of (record { network = net; node = node; vm = v }) ≡ ok q
    → runner_of (record { network = net; node = node; vm = v }) ≡ ok (id, vm)
    → Reads pool q id
unfolding dispatchable
route_of-Reads pool net (some n) v (to_runner a) id vm m s h k = ground arith
route_of-Reads pool net (some n) v (to_network a) id vm m s h k = ground arith
route_of-Reads pool net none v (to_runner a) id vm m s h k = ground arith
route_of-Reads pool net none v (to_network a) id vm m s h k =
    elim (Option-cases (first (dispatchable net))) [
      | inl f ↦ ground arith
      | inr (r, f) ↦
          let t = first-keep-In (λ r. is_dispatchable r.status) net.runners r f in
          (net, r, m, s, ground arith, t.0, t.1, ground arith)
    ]

-- A placement is in a network of the pool that is served.
abbrev pub IsServed : Pool → RunnerSet → Type 0
IsServed pool n = In n pool.networks × (n.served ≡ true)

or_else-cases :
    {A : Type 0} (a b : Option A) (c : A) → or_else a b ≡ some c → (a ≡ some c) ⊎ (b ≡ some c)
or_else-cases (some a) b c h = inl h
or_else-cases none b c h = inr h

pair-IsServed :
    (pool : Pool) (m n : RunnerSet) (q r : Runner)
    → ◌≡◌ {A = Option (RunnerSet × Runner)} (some (m, q)) (some (n, r))
    → IsServed pool m
    → IsServed pool n
pair-IsServed pool m n q r h s = let same : m ≡ n = ground arith in subst (IsServed pool) same s

locate_loop-IsServed :
    (pool : Pool) (d node : Text) (found : Option (RunnerSet × Runner)) (sets : List RunnerSet)
    (n : RunnerSet) (r : Runner)
    → ((m : RunnerSet) (q : Runner) → found ≡ some (m, q) → IsServed pool m)
    → ((m : RunnerSet) → In m sets → IsServed pool m)
    → locate_loop d node found sets ≡ some (n, r)
    → IsServed pool n
unfolding locate_loop
locate_loop-IsServed pool d node found [] n r f g h = f n r h
locate_loop-IsServed pool d node found (set ∷ sets) n r f g h =
    elim (Option-cases (find (λ r. text_eq r.id node) set.runners)) [
      | inl e ↦
          locate_loop-IsServed pool d node found sets n r f (λ m t. g m (inr t)) (ground arith)
      | inr (x, e) ↦ elim (Bool-cases (text_eq set.network_id d)) [
        | inl c ↦ pair-IsServed pool set n x r (ground arith) (g set (inl refl))
        | inr c ↦
            locate_loop-IsServed pool d node (or_else found (some (set, x))) sets n r
              (λ m q t. elim (or_else-cases found (some (set, x)) (m, q) t) [
                | inl u ↦ f m q u
                | inr u ↦ pair-IsServed pool set m x q u (g set (inl refl))
              ])
              (λ m t. g m (inr t)) (ground arith)
      ]
    ]

keep_served-IsServed : (pool : Pool) (n : RunnerSet) → In n (served pool) → IsServed pool n
unfolding served
keep_served-IsServed pool n m = keep-In (λ n. n.served) pool.networks n m

first-In : {A : Type 0} (xs : List A) (x : A) → first xs ≡ some x → In x xs
first-In [] x h = cc
first-In (y ∷ ys) x h = inl (ground arith)

default_set-IsServed : (pool : Pool) (n : RunnerSet) → default_set pool ≡ some n → IsServed pool n
unfolding default_set
default_set-IsServed pool n h =
    elim (or_else-cases
      (find (λ m. m.served && text_eq m.network_id pool.default_network_id) pool.networks)
      (first (served pool)) n h) [
        | inl e ↦
            let t =
              find-In (λ m. m.served && text_eq m.network_id pool.default_network_id) pool.networks
                n e in
            (t.0, ground arith)
        | inr e ↦ keep_served-IsServed pool n (first-In (served pool) n e)
      ]

network_of-IsServed :
    (pool : Pool) (t : Target) (n : RunnerSet) → network_of pool t ≡ ok n → IsServed pool n
unfolding network_of find_network
network_of-IsServed pool t n h = elim (Option-cases t.network) [
  | inl e ↦ elim (Option-cases (default_set pool)) [
    | inl g ↦ ground arith
    | inr (m, g) ↦ default_set-IsServed pool n (ground arith)
  ]
  | inr (name, e) ↦ elim (Option-cases (find_network (trim name) pool)) [
    | inl g ↦ ground arith
    | inr (m, g) ↦
        let t = find-In (network_matches (trim (trim name))) pool.networks m g in
        elim (Bool-cases m.served) [
          | inl s ↦ let same : m ≡ n = ground arith in subst (IsServed pool) same (t.0, s)
          | inr s ↦ ground arith
        ]
  ]
]

place_in-network :
    (t : Target) (f : Fallback) (n : RunnerSet) (p : Placement)
    → place_in t f n ≡ ok p
    → n ≡ p.network
place_in-network t f n p h = elim (Option-cases t.node) [
  | inl e ↦ ground arith
  | inr (wanted, e) ↦ elim (Option-cases (find_runner wanted n)) [
    | inl g ↦ elim (Bool-cases (is_anywhere f && is_none t.vm)) [
      | inl c ↦ ground arith
      | inr c ↦ ground arith
    ]
    | inr (r, g) ↦ ground arith
  ]
]

-- A job is only ever placed in a network of the snapshot that this instance serves.
pub place-IsServed :
    (pool : Pool) (t : Target) (f : Fallback) (p : Placement)
    → place pool t f ≡ ok p
    → IsServed pool p.network
unfolding place locate
place-IsServed pool t f p h = elim (Bool-cases t.local) [
  | inl l ↦ elim (Option-cases (locate pool.default_node_id pool)) [
    | inl e ↦ ground arith
    | inr ((n, r), e) ↦
        let s =
          locate_loop-IsServed pool pool.default_network_id pool.default_node_id none (served pool)
            n r (λ m q u. ground arith) (keep_served-IsServed pool) e in
        let same : n ≡ p.network = ground arith in subst (IsServed pool) same s
  ]
  | inr l ↦
      let g : (network_of pool t >>= place_in t f) ≡ ok p = ground arith in
      let (n, e, k) = >>=-eq-ok (network_of pool t) (place_in t f) g in
      subst (IsServed pool) (place_in-network t f n p k) (network_of-IsServed pool t n e)
]

-- When a job is routed to a queue and a runner is picked for it, both on the same snapshot, the
-- runner is one that takes jobs of that queue.
pub pick_runner-Reads :
    (pool : Pool) (t : Target) (f : Fallback) (q : Route) (id : Text) (vm : Option Text)
    → route_for pool t f ≡ ok q
    → pick_runner pool t f ≡ ok (id, vm)
    → Reads pool q id
unfolding route_for pick_runner
pick_runner-Reads pool t f q id vm h k =
    let (p, e, a) = >>=-eq-ok (place pool t f) route_of h in
    let (p', e', b) = >>=-eq-ok (place pool t f) runner_of k in
    let same : p' ≡ p = ground arith in
    let b' = subst (λ p. runner_of p ≡ ok (id, vm)) same b in
    let s = place-IsServed pool t f p e in
    route_of-Reads pool p.network p.node p.vm q id vm s.0 s.1 a b'

network_of-canonical :
    (pool : Pool) (t : Target) (p : Placement)
    → find_network (trim p.network.network_name) pool ≡ some p.network
    → p.network.served ≡ true
    → network_of pool (canonical t p) ≡ ok p.network
unfolding network_of
network_of-canonical pool t p hn s = ground arith

place_in-canonical :
    (t : Target) (f : Fallback) (p : Placement)
    → ((r : Runner) → p.node ≡ some r → find_runner r.name p.network ≡ some r)
    → place_in t f p.network ≡ ok p
    → place_in (canonical t p) f p.network ≡ ok p
place_in-canonical t f p hr h = elim (Option-cases p.node) [
  | inl e ↦ ground arith
  | inr (r, e) ↦
      let u = hr r e in
      elim (Option-cases t.node) [
        | inl c ↦ ground arith
        | inr (wanted, c) ↦ elim (Option-cases (find_runner wanted p.network)) [
          | inl g ↦ elim (Bool-cases (is_anywhere f && is_none t.vm)) [
            | inl b ↦ ground arith
            | inr b ↦ ground arith
          ]
          | inr (x, g) ↦ ground arith
        ]
      ]
]

-- Placing a job again after a submit has written the canonical names into it gives the same
-- place, when the network's name finds that network and the host's name finds that host.
place-canonical :
    (pool : Pool) (t : Target) (f : Fallback) (p : Placement)
    → find_network (trim p.network.network_name) pool ≡ some p.network
    → ((r : Runner) → p.node ≡ some r → find_runner r.name p.network ≡ some r)
    → place pool t f ≡ ok p
    → place pool (canonical t p) f ≡ ok p
unfolding place
place-canonical pool t f p hn hr h = elim (Bool-cases t.local) [
  | inl l ↦ ground arith
  | inr l ↦
      let g : (network_of pool t >>= place_in t f) ≡ ok p = ground arith in
      let (n, e, k) = >>=-eq-ok (network_of pool t) (place_in t f) g in
      let same = place_in-network t f n p k in
      let s = network_of-IsServed pool t n e in
      let m = network_of-canonical pool t p hn (subst (λ n. n.served ≡ true) same s.1) in
      let r = place_in-canonical t f p hr (subst (λ n. place_in t f n ≡ ok p) same k) in
      ground arith
]

-- A submit that resolves a job, without `uses: default`, to one host writes the host's name;
-- when the network's name finds the network and the host's name finds another host in it, the
-- job is placed on that other host from then on.
pub place-renamed :
    (pool : Pool) (t : Target) (f : Fallback) (p : Placement) (r other : Runner)
    → t.local ≡ false
    → p.node ≡ some r
    → find_network (trim p.network.network_name) pool ≡ some p.network
    → find_runner r.name p.network ≡ some other
    → place pool t f ≡ ok p
    → place pool (canonical t p) f
      ≡ ok (record { network = p.network; node = some other; vm = t.vm })
unfolding place
place-renamed pool t f p r other l e hn ho h =
    let g : (network_of pool t >>= place_in t f) ≡ ok p = ground arith in
    let (n, u, k) = >>=-eq-ok (network_of pool t) (place_in t f) g in
    let same = place_in-network t f n p k in
    let s = network_of-IsServed pool t n u in
    let m = network_of-canonical pool t p hn (subst (λ n. n.served ≡ true) same s.1) in ground arith
