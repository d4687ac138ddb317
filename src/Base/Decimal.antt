-- ===== src/Base/Decimal.antt =====
-- `std::to_string` of an unsigned number.
use Prim.Native.Nat.{ℕ, zero, suc, ◌+◌, ◌-◌, ◌*◌, ◌/◌, ◌%◌, ◌<◌}
use mathlib.Core.Path.{◌≡◌, refl, ◌∙◌}
use mathlib.Core.Logic.{◌≢◌, inl, inr}
use mathlib.Core.List.{[], ◌∷◌, ◌++◌}
use native.Mathlib.Omega.{arith}
use rtt_opcua.Base.Tests.{ltb, if◌then◌else◌, Bool-cases}
use rtt_opcua.Base.Lists.{All}
use rtt_opcua.Base.Text.{Bytes}

-- The digits of a number, of at most as many as the fuel says.
unfoldable pub decimal : ℕ → ℕ → Bytes
decimal zero n = []
decimal (suc fuel) n =
    let rest = decimal fuel (n / 10) in
    if ltb n 10 then (48 + n) ∷ [] else rest ++ ((48 + n % 10) ∷ [])

-- The number that a text of digits is read as.
unfoldable pub read_back : ℕ → Bytes → ℕ
read_back n [] = n
read_back n (c ∷ s) = read_back (n * 10 + (c - 48)) s

read_back-append :
    (n : ℕ) (s : Bytes) (c : ℕ) → read_back n (s ++ (c ∷ [])) ≡ read_back n s * 10 + (c - 48)
unfolding read_back
read_back-append n [] c = refl
read_back-append n (x ∷ s) c = read_back-append (n * 10 + (x - 48)) s c

abbrev pub capacity : ℕ → ℕ
capacity zero = 1
capacity (suc fuel) = 10 * capacity fuel

pub read_back-decimal : (fuel n : ℕ) → n < capacity fuel → read_back 0 (decimal fuel n) ≡ n
unfolding decimal read_back
read_back-decimal zero n h = omega (arith, h)
read_back-decimal (suc fuel) n h = elim (Bool-cases (ltb n 10)) [
  | inl e ↦ rw e (ground arith)
  | inr e ↦
      let shorter = read_back-decimal fuel (n / 10) (omega (arith, h)) in
      rw e (read_back-append 0 (decimal fuel (n / 10)) (48 + n % 10) ∙ omega (arith, shorter))
]

All-snoc :
    (s : Bytes) (c : ℕ) → All (λ x. x ≢ b'/') s → c ≢ b'/' → All (λ x. x ≢ b'/') (s ++ (c ∷ []))
All-snoc [] c h k = (k, tt)
All-snoc (x ∷ s) c h k = (h.0, All-snoc s c h.1 k)

-- No slash among the digits.
pub decimal_plain : (fuel n : ℕ) → All (λ c. c ≢ b'/') (decimal fuel n)
unfolding decimal
decimal_plain zero n = tt
decimal_plain (suc fuel) n = elim (Bool-cases (ltb n 10)) [
  | inl e ↦ rw e ((λ k. absurd (omega (arith, k))), tt)
  | inr e ↦ rw e (
      All-snoc (decimal fuel (n / 10)) (48 + n % 10) (decimal_plain fuel (n / 10))
        (λ k. absurd (omega (arith, k))))
]
