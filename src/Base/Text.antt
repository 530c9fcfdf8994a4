-- ===== src/Base/Text.antt =====
-- Go strings. A Go string is a sequence of bytes, and each character of a `String` stands for one
-- of them, so `length_text` is Go's `len` and `take_text n s` is `s[:n]` where it does not panic.
use Prim.Native.Nat.{ℕ, zero, suc, ◌+◌}
use Prim.Native.Char.{code}
use Prim.Native.String.{String, [], ◌∷◌}
use mathlib.Core.Bool.{Bool, true, false, ◌&&◌, ◌||◌}
use node_updater.Base.Tests.{ltb, ◌=ℕ◌, ◌==◌, if◌then◌else◌}

abbrev pub length_text : String → ℕ
length_text [] = 0
length_text (c ∷ s) = suc (length_text s)

abbrev pub take_text : ℕ → String → String
take_text n [] = []
take_text zero (c ∷ s) = []
take_text (suc n) (c ∷ s) = c ∷ take_text n s

-- `strings.HasSuffix(s, end)`: `end` is `s` or a tail of it.
unfoldable pub has_suffix : String → String → Bool
has_suffix [] end = end == []
has_suffix (c ∷ s) end = let rest = has_suffix s end in if end == (c ∷ s) then true else rest

lower : ℕ → ℕ
lower c = if ltb c 65 || ltb 90 c then c else c + 32

-- `strings.ToLower(s) == t`, for a `t` of ASCII letters none of which is the lower case of a
-- letter outside ASCII.
unfoldable pub lower_eq : String → String → Bool
unfolding lower
lower_eq [] [] = true
lower_eq [] (d ∷ t) = false
lower_eq (c ∷ s) [] = false
lower_eq (c ∷ s) (d ∷ t) = (lower (code c) =ℕ code d) && lower_eq s t
