-- ===== src/Base/Suffix.antt =====
-- `strings.HasSuffix` holds just if the text is something followed by the suffix.
use Prim.Native.String.{String, [], ◌∷◌, ◌++◌}
use Prim.Native.String.append
use mathlib.Core.Path.{◌≡◌, ap, sym}
use mathlib.Core.Bool.{true}
use node_updater.Base.Text.{has_suffix}
use node_updater.Base.Tests.{string_dec}
use native.Mathlib.Omega.{arith}

pub has_suffix-split :
    (s end : String) → has_suffix s end ≡ true → (before : String) × (s ≡ before ++ end)
unfolding has_suffix
has_suffix-split [] end e = elim (string_dec end []) [
  | yes same ↦ ([], simp append.nil (sym same))
  | no other ↦ absurd (ground arith)
]
has_suffix-split (c ∷ s) end e = elim (string_dec end (c ∷ s)) [
  | yes same ↦ ([], simp append.nil (sym same))
  | no other ↦
      let (before, split) = has_suffix-split s end (ground arith) in
      (c ∷ before, simp append.cons (ap (λ t. c ∷ t) split))
]

has_suffix_self : (s : String) → has_suffix s s ≡ true
unfolding has_suffix
has_suffix_self [] = ground arith
has_suffix_self (c ∷ s) = ground arith

pub has_suffix-append : (before end : String) → has_suffix (before ++ end) end ≡ true
unfolding has_suffix
has_suffix-append [] end = simp append.nil (has_suffix_self end)
has_suffix-append (c ∷ before) end =
    let rest = has_suffix-append before end in simp append.cons (ground arith)
