-- ===== src/Azure/Parts.antt =====
-- `strings.Split` at underscores.
use Prim.Native.Char.{code}
use Prim.Native.String.{[], ◌∷◌}
use Prim.Native.String.append
use text.Mathlib.TextLemmas.{append-nil}
use node_updater.Base.{
  String, ◌≡◌, refl, false, List, [], ◌∷◌, ◌=ℕ◌, ◌<>◌, ◌∙◌, Bool-cases, inl, ap, inr,
}
use node_updater.Azure.{split, underscore}

-- No byte of the text is an underscore.
abbrev pub IsPlain : String → Type 0
IsPlain [] = Unit
IsPlain (c ∷ s) = ((code c =ℕ underscore) ≡ false) × IsPlain s

split_plain :
    (s rest : String) (part : String) (parts : List String)
    → IsPlain s
    → split rest ≡ part ∷ parts
    → split (s <> rest) ≡ (s <> part) ∷ parts
unfolding split
split_plain [] rest part parts plain e = simp append.nil e
split_plain (c ∷ s) rest part parts plain e =
    let ih = split_plain s rest part parts plain.1 e in simp (append.cons, plain.0, ih) refl

split-underscore : (rest : String) → split ("_" <> rest) ≡ "" ∷ split rest
unfolding split
split-underscore rest = rw (append.cons, append.nil) refl

-- A text without underscores in front of one is split off.
pub split-plain-underscore :
    (s rest : String) → IsPlain s → split (s <> ("_" <> rest)) ≡ s ∷ split rest
split-plain-underscore s rest plain =
    split_plain s ("_" <> rest) "" (split rest) plain (split-underscore rest)
    ∙ ap (λ t. t ∷ split rest) (append-nil s)

pub split-plain : (s : String) → IsPlain s → split s ≡ s ∷ []
unfolding split
split-plain [] plain = refl
split-plain (c ∷ s) plain = let ih = split-plain s plain.1 in simp (plain.0, ih) refl

-- There is always a first part.
pub split-cons : (s : String) → (part : String) × (parts : List String) × (split s ≡ part ∷ parts)
unfolding split
split-cons [] = ("", [], refl)
split-cons (c ∷ s) =
    let (part, parts, e) = split-cons s in
    elim (Bool-cases (code c =ℕ underscore)) [
      | inl at ↦ ("", split s, rw at refl)
      | inr off ↦ (c ∷ part, parts, simp (off, e) refl)
    ]
