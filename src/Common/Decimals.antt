-- ===== src/Common/Decimals.antt =====
-- The decimal digits of a number determine it.
use Prim.Native.Nat.{ℕ, zero, suc, ◌+◌, ◌-◌, ◌*◌, ◌/◌, ◌%◌, ◌≤◌}
use mathlib.Core.Path.{◌≡◌, refl, sym, ap, ◌∙◌}
use mathlib.Core.List.{[], ◌∷◌}
use native.Mathlib.Omega.{arith}
use ci.Common.Strings.{Text, decimal, decimal_from}
use ci.Common.Tests.{ltb, if_cases}

-- The number that the digits after `n` make.
abbrev value : ℕ → Text → ℕ
value n [] = n
value n (c ∷ s) = value (n * 10 + (c - b'0')) s

value-decimal_from :
    (fuel n : ℕ) (acc : Text) → n ≤ fuel → value 0 (decimal_from fuel n acc) ≡ value n acc
value-decimal_from zero n acc h = let z : n ≡ 0 = omega arith in rw z refl
value-decimal_from (suc f) n acc h =
    if_cases (λ s. value 0 s ≡ value n acc) (ltb n 10) ((b'0' + n) ∷ acc)
      (decimal_from f (n / 10) ((b'0' + n % 10) ∷ acc)) (λ e. ap (λ m. value m acc) (omega arith))
      (λ e. value-decimal_from f (n / 10) _ (ground arith) ∙ ap (λ m. value m acc) (omega arith))

pub decimal-injective : (m n : ℕ) → decimal m ≡ decimal n → m ≡ n
decimal-injective m n e =
    sym (value-decimal_from m m [] (omega arith))
    ∙ ap (value 0) e
    ∙ value-decimal_from n n [] (omega arith)
