-- ===== src/Base/Json.antt =====
-- `json.Unmarshal` into a `map[string]int`, as a machine over the bytes of the text. Whatever is not
-- an object of integers is an error, of the syntax or of a type.
-- A key is only compared with ASCII texts, so the machine puts one byte outside ASCII for what a
-- `\u` escape stands for there.
pub mod Printed
use Prim.Native.Nat.{Ordering, compare, ℕ, zero, suc, ◌+◌, ◌-◌, ◌*◌, ◌^◌}
use Prim.Native.Char.{Char, char, code, nul}
use Prim.Native.String.{String, [], ◌∷◌, ◌++◌}
use mathlib.Core.Path.{◌≡◌, refl}
use mathlib.Core.Option.{Option, none, some}
use mathlib.Core.List.{List, [], ◌∷◌}
use mathlib.Core.Bool.{Bool, true, false, ◌||◌, ◌&&◌, not}
use node_updater.Base.Tests.{string_dec, ltb, ◌=ℕ◌, if◌then◌else◌}
use node_updater.Base.Dict.{Dict, insert}
use node_updater.Base.Int.{ℤ, pos, negsuc}

pub data Mode : Type 0 where
  start : Mode
  -- the letters of `null` that are still to come, at the top or as a value
  top_null : String → Mode
  value_null : Dict ℤ → String → String → Mode
  first_key next_key after_value : Dict ℤ → Mode
  in_key escape colon value_start : Dict ℤ → String → Mode
  -- how many hexadecimal digits are to come, and the number so far
  hex : Dict ℤ → String → ℕ → ℕ → Mode
  minus : Dict ℤ → String → Mode
  -- the sign is negative or not
  leading_zero : Dict ℤ → String → Mode
  digits : Dict ℤ → String → Bool → ℕ → Mode
  finished : Dict ℤ → Mode
  broken : Mode

abbrev pub is_space : ℕ → Bool
is_space c = c =ℕ 32 || (c =ℕ 9 || (c =ℕ 10 || c =ℕ 13))

abbrev pub is_digit : ℕ → Bool
is_digit c = not (ltb c 48 || ltb 57 c)

-- The value of a hexadecimal digit.
hex_value : ℕ → Option ℕ
hex_value c =
    if is_digit c
    then some (c - 48)
    else if not (ltb c 65 || ltb 70 c)
    then some (c - 55)
    else if not (ltb c 97 || ltb 102 c)
    then some (c - 87)
    else none

-- The integer with this sign, if it fits into 64 bits.
integer : Bool → ℕ → Option ℤ
integer false n = if ltb n (2 ^ 63) then some (pos n) else none
integer true zero = some (pos 0)
integer true (suc n) = if ltb n (2 ^ 63) then some (negsuc n) else none

-- What may follow a value.
after : Dict ℤ → ℕ → Mode
after m c =
    if is_space c
    then after_value m
    else if c =ℕ 44
    then next_key m
    else if c =ℕ 125
    then finished m
    else broken

store : Dict ℤ → String → Option ℤ → ℕ → Mode
unfolding after
store m k none c = broken
store m k (some n) c = after (insert k n m) c

push : String → Char → String
push k c = k ++ (c ∷ [])

-- The letter after a backslash, but `u`.
escaped : ℕ → Option Char
escaped c =
    if c =ℕ 34
    then some "\""
    else if c =ℕ 92
    then some "\\"
    else if c =ℕ 47
    then some "/"
    else if c =ℕ 98
    then some "\u{8}"
    else if c =ℕ 102
    then some "\u{c}"
    else if c =ℕ 110
    then some "\n"
    else if c =ℕ 114
    then some "\r"
    else if c =ℕ 116
    then some "\t"
    else none

from_order : (n : ℕ) (o : Ordering) → compare n 55296 ≡ o → Char
from_order n Ordering.lt e = char n (rw e tt)
from_order n Ordering.eq e = nul
from_order n Ordering.gt e = nul

-- The character of a `\u` escape, if it is ASCII.
decoded : ℕ → Char
unfolding from_order
decoded n = if ltb n 128 then from_order n (compare n 55296) refl else "ÿ"

hex_step : Dict ℤ → String → ℕ → ℕ → Option ℕ → Mode
unfolding decoded push
hex_step m k left n none = broken
hex_step m k zero n (some d) = in_key m (push k (decoded (n * 16 + d)))
hex_step m k (suc left) n (some d) = hex m k left (n * 16 + d)

escape_step : Dict ℤ → String → Option Char → Mode
unfolding push
escape_step m k none = broken
escape_step m k (some c) = in_key m (push k c)

null_step : String → Mode → (String → Mode) → ℕ → Mode
null_step [] done more c = broken
null_step (x ∷ []) done more c = if code x =ℕ c then done else broken
null_step (x ∷ y ∷ rest) done more c = if code x =ℕ c then more (y ∷ rest) else broken

value_step : Dict ℤ → String → ℕ → Mode
value_step m k c =
    if is_space c
    then value_start m k
    else if c =ℕ 45
    then minus m k
    else if c =ℕ 48
    then leading_zero m k
    else if is_digit c
    then digits m k false (c - 48)
    else if c =ℕ 110
    then value_null m k "ull"
    else broken

unfoldable pub step : Mode → Char → Mode
unfolding hex_value integer after store push escaped hex_step escape_step null_step value_step
step start c =
    if is_space (code c)
    then start
    else if code c =ℕ 123
    then first_key []
    else if code c =ℕ 110
    then top_null "ull"
    else broken
step (top_null rest) c = null_step rest (finished []) top_null (code c)
step (value_null m k rest) c =
    null_step rest (after_value (insert k (pos 0) m)) (value_null m k) (code c)
step (first_key m) c =
    if is_space (code c)
    then first_key m
    else if code c =ℕ 34
    then in_key m []
    else if code c =ℕ 125
    then finished m
    else broken
step (next_key m) c =
    if is_space (code c) then next_key m else if code c =ℕ 34 then in_key m [] else broken
step (in_key m k) c =
    if ltb (code c) 32
    then broken
    else if code c =ℕ 34
    then colon m k
    else if code c =ℕ 92
    then escape m k
    else in_key m (push k c)
step (escape m k) c = if code c =ℕ 117 then hex m k 3 0 else escape_step m k (escaped (code c))
step (hex m k left n) c = hex_step m k left n (hex_value (code c))
step (colon m k) c =
    if is_space (code c) then colon m k else if code c =ℕ 58 then value_start m k else broken
step (value_start m k) c = value_step m k (code c)
step (minus m k) c =
    if code c =ℕ 48
    then leading_zero m k
    else if is_digit (code c)
    then digits m k true (code c - 48)
    else broken
step (leading_zero m k) c = store m k (some (pos 0)) (code c)
step (digits m k sign n) c =
    if is_digit (code c)
    then digits m k sign (n * 10 + (code c - 48))
    else store m k (integer sign n) (code c)
step (after_value m) c = after m (code c)
step (finished m) c = if is_space (code c) then finished m else broken
step broken c = broken

unfoldable pub result : Mode → Option (Dict ℤ)
result (finished m) = some m
result _ = none

unfoldable pub run : Mode → String → Mode
run mode [] = mode
run mode (c ∷ s) = run (step mode c) s

unfoldable pub unmarshal_counts : String → Option (Dict ℤ)
unfolding run step result
unmarshal_counts s = result (run start s)

escapes :
    unmarshal_counts " { \"Min\\u0043ount\" : -1 , \"x\":null,\"Count\":20}\n"
    ≡ some (("MinCount", negsuc 0) ∷ ("x", pos 0) ∷ ("Count", pos 20) ∷ [])
unfolding unmarshal_counts insert string_dec
escapes = refl

refused :
    (unmarshal_counts "{\"Count\": 1.5}" ≡ none)
    × (unmarshal_counts "{\"Count\": 01}" ≡ none)
    × (unmarshal_counts "{\"Count\": 9223372036854775808}" ≡ none)
    × (unmarshal_counts "{\"Count\": 1,}" ≡ none)
    × (unmarshal_counts "" ≡ none)
    × (unmarshal_counts "null" ≡ some [])
unfolding unmarshal_counts insert string_dec
refused = (refl, refl, refl, refl, refl, refl)
