-- ===== src/Common/Results.antt =====
-- Rust's `Result`, its `?` as the bind of a `do` block, and the inversion of a successful bind.
use mathlib.Core.Path.{◌≡◌, refl}
use mathlib.Core.Bool.{Bool, true, false}

pub data Result {ℓ κ} (E : Type ℓ) (A : Type κ) : Type (ℓ ⊔ κ) where
  err : E → Result E A
  ok : A → Result E A

-- `Result<(), E>`.
abbrev pub Checked {ℓ} : Type ℓ → Type ℓ
Checked E = Result E (Unit {0})

-- `if !test { return Err(e) }`.
abbrev pub require {ℓ} : {E : Type ℓ} → Bool → E → Result E (Unit {0})
require false problem = err problem
require true problem = ok tt

-- `map_err`.
abbrev pub map_err {ℓ κ μ} :
    {E : Type ℓ} {F : Type κ} {A : Type μ} → (E → F) → Result E A → Result F A
map_err change (err e) = err (change e)
map_err change (ok a) = ok a

infixl 5 ◌>>=◌
abbrev pub ◌>>=◌ {ℓ κ μ} :
    {E : Type ℓ} {A : Type κ} {B : Type μ} → Result E A → (A → Result E B) → Result E B
err e >>= next = err e
ok a >>= next = next a

pub >>=-eq-ok {ℓ κ μ} :
    {E : Type ℓ} {X : Type κ} {Y : Type μ} (done : Result E X) (next : X → Result E Y) {y : Y}
    → (done >>= next) ≡ ok y
    → (x : X) × (done ≡ ok x) × (next x ≡ ok y)
>>=-eq-ok (err e) next came = cc
>>=-eq-ok (ok x) next came = (x, refl, came)

infixl 5 ◌>>◌
abbrev pub ◌>>◌ {ℓ μ} : {E : Type ℓ} {B : Type μ} → Checked E → Result E B → Result E B
first >> second = first >>= λ done. second

pub map_err-eq-ok {ℓ κ μ} :
    {E : Type ℓ} {F : Type κ} {X : Type μ} (change : E → F) (done : Result E X) {x : X}
    → map_err change done ≡ ok x
    → done ≡ ok x
map_err-eq-ok change (err e) came = cc
map_err-eq-ok change (ok y) came = cc

pub require-eq-ok {ℓ} :
    {E : Type ℓ} (test : Bool) (problem : E) {done : Unit {0}}
    → require test problem ≡ ok done
    → test ≡ true
require-eq-ok true problem came = refl
require-eq-ok false problem came = cc
