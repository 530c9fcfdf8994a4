-- ===== src/Base/Decimal.antt =====
-- Decimal numbers: `strconv.Itoa`, `%d`, and the `Int64` of a `json.Number`.
use Prim.Native.Nat.{ℕ, zero, suc, ◌+◌, ◌-◌, ◌*◌, ◌/◌, ◌%◌, ◌^◌}
use Prim.Native.Char.{Char, code}
use Prim.Native.String.{String, [], ◌∷◌, ◌++◌}
use mathlib.Core.Path.{◌≡◌, refl}
use mathlib.Core.Bool.{◌||◌}
use node_updater.Base.Tests.{ltb, ◌=ℕ◌, if◌then◌else◌}
use node_updater.Base.Int.{ℤ, pos, negsuc}

unfoldable pub digit_char : ℕ → Char
digit_char zero = "0"
digit_char (suc zero) = "1"
digit_char (suc (suc zero)) = "2"
digit_char (suc (suc (suc zero))) = "3"
digit_char (suc (suc (suc (suc zero)))) = "4"
digit_char (suc (suc (suc (suc (suc zero))))) = "5"
digit_char (suc (suc (suc (suc (suc (suc zero)))))) = "6"
digit_char (suc (suc (suc (suc (suc (suc (suc zero))))))) = "7"
digit_char (suc (suc (suc (suc (suc (suc (suc (suc zero)))))))) = "8"
digit_char _ = "9"

-- The digits of a number in front of a text. The fuel is above the number, and each round divides
-- it by ten.
unfoldable pub decimal_onto : ℕ → ℕ → String → String
decimal_onto zero n out = out
decimal_onto (suc fuel) n out =
    let rest = decimal_onto fuel (n / 10) (digit_char (n % 10) ∷ out) in
    if ltb n 10 then digit_char n ∷ out else rest

unfoldable pub decimal : ℕ → String
decimal n = decimal_onto (suc n) n []

unfoldable pub itoa : ℤ → String
unfolding decimal decimal_onto digit_char
itoa (pos n) = decimal n
itoa (negsuc n) = "-" ++ decimal (suc n)

pub data Parsed : Type 0 where
  number : ℤ → Parsed
  invalid out_of_range : Parsed

-- The digits so far, if all are digits.
pub data Scanned : Type 0 where
  digits : ℕ → Scanned
  broken : Scanned

scan : String → ℕ → Scanned
scan [] n = digits n
scan (c ∷ s) n =
    let d = code c - 48 in
    let rest = scan s (n * 10 + d) in if ltb (code c) 48 || ltb 57 (code c) then broken else rest

positive : Scanned → Parsed
positive broken = invalid
positive (digits n) = if ltb n (2 ^ 63) then number (pos n) else out_of_range

negative : Scanned → Parsed
negative broken = invalid
negative (digits zero) = number (pos 0)
negative (digits (suc n)) = if ltb n (2 ^ 63) then number (negsuc n) else out_of_range

unsigned : (Scanned → Parsed) → String → Parsed
unfolding scan
unsigned sign [] = invalid
unsigned sign (c ∷ s) = sign (scan (c ∷ s) 0)

-- `strconv.ParseInt(s, 10, 64)`
unfoldable pub parse_int64 : String → Parsed
unfolding unsigned scan positive negative
parse_int64 [] = invalid
parse_int64 (c ∷ s) =
    let signless = unsigned positive (c ∷ s) in
    if code c =ℕ 45
    then unsigned negative s
    else if code c =ℕ 43
    then unsigned positive s
    else signless

itoa_example : itoa (negsuc 119) ≡ "-120"
unfolding itoa
itoa_example = refl

parse_int64_example : parse_int64 "-9223372036854775808" ≡ number (negsuc 9223372036854775807)
unfolding parse_int64
parse_int64_example = refl
