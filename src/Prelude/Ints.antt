-- ===== src/Prelude/Ints.antt =====
-- Python integers where the program uses a negative one.
use Prim.Native.Nat.{ℕ, zero, suc, ◌≤◌}
use mathlib.Core.Path.{◌≡◌, refl}
use mathlib.Core.Logic.{◌⊎◌, inl, inr, ◌↔◌}
use native.Mathlib.Omega.{arith}
use mathlib.Core.Bool.{Bool, true, false, not, ◌||◌}
use url_copilot.Prelude.Tests.{ltb, nat_beq}

-- `negsuc n` is -(n + 1)
pub data ℤ : Type 0 where
  pos : ℕ → ℤ
  negsuc : ℕ → ℤ

-- `i == -1`
abbrev pub is_minus_one : ℤ → Bool
is_minus_one (pos n) = false
is_minus_one (negsuc n) = nat_beq n 0

-- `n > i`
abbrev pub exceeds : ℕ → ℤ → Bool
exceeds n (pos m) = ltb m n
exceeds n (negsuc m) = true

-- -1 is the budget of those who have none
pub within_limit_iff :
    (n : ℕ) (i : ℤ)
    → ((is_minus_one i || not (exceeds n i)) ≡ true)
      ↔ ((i ≡ negsuc 0) ⊎ ((m : ℕ) × (i ≡ pos m) × (n ≤ m)))
within_limit_iff n (pos m) = (λ h. inr (m, refl, ground arith), λ w. ground arith)
within_limit_iff n (negsuc zero) = (λ h. inl refl, λ w. refl)
within_limit_iff n (negsuc (suc k)) = (λ h. absurd (ground arith), λ w. ground arith)
