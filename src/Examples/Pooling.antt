-- ===== src/Examples/Pooling.antt =====
-- The statements of the pool at concrete inputs.
use mathlib.Core.List.Perm
use ci.Common.{
  ◌+◌, ◌*◌, ok, ℕ, ◌≡◌, refl, Bool, false, List, [], ◌∷◌, Option, some, Text, codes, text_eq, inl,
  arith, keep,
}
use ci.Workflow.Jobs.{VmSpec}
use ci.VmPool.Fingerprint.{Outside, fingerprint, content}
use ci.VmPool.Fingerprint.Sorted.{fingerprint-Perm}
use ci.Examples.Data.{empty_db, vm}
use ci.VmPool.Rows.{Lease, Vm, claimed}
use ci.VmPool.{claim, release, register, release_orphans, is_candidate}
use ci.VmPool.Steps.{registers, releases, reclaims, Event, perform, history}
use ci.VmPool.Invariant.{Inv, history-Inv}
use ci.VmPool.Exclusive.{claim-exclusive}
use ci.VmPool.HolderTable.{holder}
use ci.VmPool.Holders.{Meets, perform-Meets}
use ci.VmPool.Recovery.{Finds, claim-Finds, release_orphans-claim}

abbrev nothing_locked : Text → Bool
nothing_locked id = false

abbrev lease_a : Lease
lease_a = record { instance_id = codes "a"; ttl = 180 }

abbrev lease_b : Lease
lease_b = record { instance_id = codes "b"; ttl = 180 }

-- A machine that job `r1.x` made at 5 and gave back at 50.
abbrev made : Event ℕ
made = record {
  db = empty_db;
  now = 5;
  call = registers (codes "sb-1") (codes "hd") (codes "fp") (codes "ci.yml") (codes "r1.x") lease_a;
}

abbrev given_back : Event ℕ
given_back = record { db = empty_db; now = 50; call = releases (codes "sb-1") }

abbrev warm : List Vm
warm = history (made ∷ given_back ∷ []) []

abbrev claimed_warm : List Vm × Option Text
claimed_warm = claim nothing_locked (codes "hd") (codes "fp") (codes "r2.x") lease_a 100 warm

abbrev held_row : Vm
held_row = record {
  sandbox_id = codes "sb-1";
  runner_hd_id = codes "hd";
  fingerprint = codes "fp";
  workflow_id = codes "ci.yml";
  status = claimed;
  claimed_by_job = some (codes "r2.x");
  last_job = some (codes "r2.x");
  leased_by = some (codes "a");
  leased_until = some 280;
  created_at = 5;
  last_used_at = 100;
}

history-Inv_example : Inv warm
history-Inv_example = history-Inv (made ∷ given_back ∷ [])

perform-Meets_example :
    Meets
      (releases (codes "sb-1"))
      (holder warm)
      (holder (perform empty_db 60 (releases (codes "sb-1")) warm))
perform-Meets_example =
    perform-Meets empty_db 60 (releases (codes "sb-1")) warm (history-Inv (made ∷ given_back ∷ []))

claim-Finds_example :
    Finds
      (keep (is_candidate nothing_locked (codes "hd") (codes "fp")) warm)
      (claim nothing_locked (codes "hd") (codes "fp") (codes "r2.x") lease_a 100 warm).1
claim-Finds_example =
    claim-Finds nothing_locked (codes "hd") (codes "fp") (codes "r2.x") lease_a 100 warm

-- The only machine is claimed until 280, so that the second claim at 200 makes a second one first.
abbrev meanwhile : List (Event ℕ)
meanwhile =
    record {
      db = empty_db;
      now = 150;
      call =
          registers (codes "sb-2") (codes "hd") (codes "fp") (codes "ci.yml") (codes "r3.x")
            lease_b;
    }
    ∷ record { db = empty_db; now = 160; call = releases (codes "sb-2") }
    ∷ record { db = empty_db; now = 170; call = reclaims (codes "hd" ∷ []) (codes "b") }
    ∷ []

claim-exclusive_example : text_eq (codes "sb-2") (codes "sb-1") ≡ false
unfolding claim perform release register release_orphans
claim-exclusive_example =
    claim-exclusive {N = ℕ} nothing_locked (codes "hd") (codes "fp") (codes "r2.x") lease_a 100 warm
      {id = codes "sb-1"} {after = claimed_warm.0} refl meanwhile (refl, (refl, (omega arith, tt)))
      nothing_locked (codes "hd") (codes "fp") (codes "r4.x") lease_b 200 {other = codes "sb-2"}
      {final = _} refl

release_orphans-claim_example :
    (id : Text) × ((claim nothing_locked
        (codes "hd")
        (codes "fp")
        (codes "r9.x")
        lease_b
        300
        (release_orphans empty_db (codes "hd" ∷ []) (codes "b") 290 (held_row ∷ [])).0).1
      ≡ some id)
release_orphans-claim_example =
    release_orphans-claim empty_db (codes "hd" ∷ []) (codes "b") 290 (held_row ∷ []) held_row
      (inl refl) refl refl refl 280 refl (omega arith) nothing_locked refl (codes "r9.x") lease_b
      300

-- A hash that sums, so that the order of what it reads could show.
abbrev total : List ℕ → ℕ → ℕ
total [] n = n
total (c ∷ s) n = total s (2 * n + c)

abbrev outside : Outside
outside = record {
  sha256 = λ bytes. total bytes 0 ∷ [];
  hex = λ bytes. bytes;
  spec_json = λ spec. ok (codes "{}");
  read = λ path. content (codes "x");
}

abbrev spec_with : List Text → VmSpec
spec_with files = record vm { cache_key_files = files }

fingerprint-Perm_example :
    fingerprint outside (spec_with (codes "b" ∷ codes "a" ∷ []))
    ≡ fingerprint outside (spec_with (codes "a" ∷ codes "b" ∷ []))
fingerprint-Perm_example =
    fingerprint-Perm outside (spec_with (codes "b" ∷ codes "a" ∷ [])) (codes "a" ∷ codes "b" ∷ [])
      (Perm.swap (codes "a") (codes "b") [])
