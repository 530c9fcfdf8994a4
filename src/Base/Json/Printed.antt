-- ===== src/Base/Json/Printed.antt =====
-- The machine of `json.Unmarshal` over integers that `%d` printed.
use Prim.Native.Nat.{ℕ, zero, suc, ◌+◌, ◌*◌, ◌/◌, ◌%◌, ◌<◌, ◌^◌}
use Prim.Native.Char.{code}
use Prim.Native.String.{String, [], ◌∷◌, ◌++◌}
use Prim.Native.String.append
use mathlib.Core.Path.{◌≡◌, refl, ap, ◌∙◌}
use mathlib.Core.Bool.{Bool, true, false}
use mathlib.Core.Logic.{inl, inr}
use native.Mathlib.Omega.{arith}
use node_updater.Base.Tests.{ltb, Bool-cases}
use node_updater.Base.Dict.{Dict, insert}
use node_updater.Base.Int.{ℤ, pos, negsuc}
use node_updater.Base.Decimal.{itoa, digit_char, decimal_onto, decimal}
use node_updater.Base.Json.{
  leading_zero, value_start, minus, next_key, finished, Mode, run, step, digits,
}
use node_updater.Base.Json.{run, Mode, step, digits}

pub run-append : (m : Mode) (s t : String) → run m (s ++ t) ≡ run (run m s) t
unfolding run
run-append m [] t = simp append.nil refl
run-append m (c ∷ s) t = simp append.cons (run-append (step m c) s t)

code-digit_char : (n : ℕ) → n < 10 → code (digit_char n) ≡ 48 + n
unfolding digit_char
code-digit_char zero h = refl
code-digit_char (suc zero) h = refl
code-digit_char (suc (suc zero)) h = refl
code-digit_char (suc (suc (suc zero))) h = refl
code-digit_char (suc (suc (suc (suc zero)))) h = refl
code-digit_char (suc (suc (suc (suc (suc zero))))) h = refl
code-digit_char (suc (suc (suc (suc (suc (suc zero)))))) h = refl
code-digit_char (suc (suc (suc (suc (suc (suc (suc zero))))))) h = refl
code-digit_char (suc (suc (suc (suc (suc (suc (suc (suc zero)))))))) h = refl
code-digit_char (suc (suc (suc (suc (suc (suc (suc (suc (suc n))))))))) h = omega arith

module _ (m : Dict ℤ) (k : String) (sign : Bool) where
  step-digit :
      (n d : ℕ) → d < 10 → step (digits m k sign n) (digit_char d) ≡ digits m k sign (n * 10 + d)
  unfolding step
  step-digit n d h = let e = code-digit_char d h in ground arith

  -- From a mode that takes a first digit to `digits`.
  abbrev Starts : Mode → Type 0
  Starts from = (d : ℕ) → 0 < d → d < 10 → step from (digit_char d) ≡ digits m k sign d

  run-decimal_onto :
      (from : Mode)
      → Starts from
      → (fuel n : ℕ) (out : String) → 0 < n
      → n < fuel
      → run from (decimal_onto fuel n out) ≡ run (digits m k sign n) out
  unfolding decimal_onto run
  run-decimal_onto from starts zero n out p h = elim h [ ]
  run-decimal_onto from starts (suc fuel) n out p h = elim (Bool-cases (ltb n 10)) [
    | inl small ↦ rw small (ap (λ s. run s out) (starts n p (ground arith)))
    | inr large ↦ rw large (
        run-decimal_onto from starts fuel (n / 10) (digit_char (n % 10) ∷ out) (ground arith)
          (ground arith)
        ∙ ap (λ s. run s out)
            (step-digit (n / 10) (n % 10) (omega arith) ∙ ap (digits m k sign) (omega arith)))
  ]

-- The values of an `int`.
abbrev pub IsInt64 : ℤ → Type 0
IsInt64 (pos n) = n < 2 ^ 63
IsInt64 (negsuc n) = n < 2 ^ 63

module _ (m : Dict ℤ) (k : String) where
  -- Where the machine is behind a printed integer.
  pub number_mode : ℤ → Mode
  number_mode (pos zero) = leading_zero m k
  number_mode (pos (suc n)) = digits m k false (suc n)
  number_mode (negsuc n) = digits m k true (suc n)

  value_start-Starts : Starts m k false (value_start m k)
  unfolding step
  value_start-Starts d p h = let e = code-digit_char d h in ground arith

  minus-Starts : Starts m k true (minus m k)
  unfolding step
  minus-Starts d p h = let e = code-digit_char d h in ground arith

  pub run-itoa : (z : ℤ) → run (value_start m k) (itoa z) ≡ number_mode z
  unfolding itoa number_mode run step
  run-itoa (pos zero) = refl
  run-itoa (pos (suc n)) =
      run-decimal_onto m k false (value_start m k) value_start-Starts (suc (suc n)) (suc n) []
        (omega arith) (omega arith)
  run-itoa (negsuc n) =
      run-append (value_start m k) "-" (decimal (suc n))
      ∙ run-decimal_onto m k true (minus m k) minus-Starts (suc (suc n)) (suc n) [] (omega arith)
          (omega arith)

  -- A printed integer in front of the end of its entry is stored.
  pub step-number :
      (z : ℤ)
      → IsInt64 z
      → (step (number_mode z) "," ≡ next_key (insert k z m))
        × (step (number_mode z) "}" ≡ finished (insert k z m))
  unfolding step number_mode
  step-number (pos zero) h = (refl, refl)
  step-number (pos (suc n)) h = (ground arith, ground arith)
  step-number (negsuc n) h = (ground arith, ground arith)

-- An integer between a text that leads up to a value and the end of its entry.
module _ (from : Mode) (before : String) (m : Dict ℤ) (k : String) (z : ℤ)
    (leads : run from before ≡ value_start m k) (fits : IsInt64 z) where
  run-entry : run from (before ++ itoa z) ≡ number_mode m k z
  run-entry =
      run-append from before (itoa z) ∙ ap (λ mode. run mode (itoa z)) leads ∙ run-itoa m k z

  pub run-entry_comma :
      (s : String) → run from ((before ++ itoa z) ++ ("," ++ s)) ≡ run (next_key (insert k z m)) s
  unfolding run
  run-entry_comma s =
      run-append from (before ++ itoa z) ("," ++ s)
      ∙ ap (λ mode. run mode ("," ++ s)) run-entry
      ∙ run-append (number_mode m k z) "," s
      ∙ ap (λ mode. run mode s) (step-number m k z fits).0

  pub run-entry_end : run from ((before ++ itoa z) ++ "}") ≡ finished (insert k z m)
  unfolding run
  run-entry_end =
      run-append from (before ++ itoa z) "}"
      ∙ ap (λ mode. run mode "}") run-entry
      ∙ (step-number m k z fits).1
