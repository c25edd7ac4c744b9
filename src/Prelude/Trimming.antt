-- ===== src/Prelude/Trimming.antt =====
-- strings.TrimSpace twice is strings.TrimSpace.
use Prim.Native.Nat.{ℕ}
use mathlib.Core.Path.{◌≡◌, refl, sym, ap, ◌∙◌}
use mathlib.Core.Logic.{inl, inr}
use mathlib.Core.Bool.{true, false}
use mathlib.Core.List.{[], ◌∷◌, ◌++◌, reverse, reverse-cons, reverse-append, reverse-reverse}
use native.Mathlib.Omega.{arith}
use cpa_antigravity_quota_gu.Prelude.Tests.{Bool-cases}
use cpa_antigravity_quota_gu.Prelude.Texts.{Text, is_space, trim_left, trim_space}

trim_left-trim_left : (s : Text) → trim_left (trim_left s) ≡ trim_left s
unfolding trim_left
trim_left-trim_left [] = refl
trim_left-trim_left (c ∷ s) = ground (arith, trim_left-trim_left s)

trim_left-append :
    (s : Text) (c : ℕ) → is_space c ≡ false → trim_left (s ++ (c ∷ [])) ≡ trim_left s ++ (c ∷ [])
unfolding trim_left
trim_left-append [] c h = rw h refl
trim_left-append (d ∷ s) c h = elim (Bool-cases (is_space d)) [
  | inl e ↦ rw e (trim_left-append s c h)
  | inr e ↦ rw e refl
]

-- What is left of a text that begins with a visible character.
trimmed_from :
    (c : ℕ) (s : Text)
    → is_space c ≡ false
    → trim_space (c ∷ s) ≡ c ∷ reverse (trim_left (reverse s))
unfolding trim_space trim_left
trimmed_from c s h = rw h (
    ap (λ t. reverse (trim_left t)) (reverse-cons c s)
    ∙ ap (λ t. reverse t) (trim_left-append (reverse s) c h)
    ∙ reverse-append (trim_left (reverse s)) (c ∷ []))

trim_space-skip : (c : ℕ) (s : Text) → is_space c ≡ true → trim_space (c ∷ s) ≡ trim_space s
unfolding trim_space trim_left
trim_space-skip c s h = rw h refl

pub trim_space-trim_space : (s : Text) → trim_space (trim_space s) ≡ trim_space s
unfolding trim_left
trim_space-trim_space [] = unfold trim_space in refl
trim_space-trim_space (c ∷ s) = elim (Bool-cases (is_space c)) [
  | inl e ↦
      ap (λ t. trim_space t) (trim_space-skip c s e)
      ∙ trim_space-trim_space s
      ∙ sym (trim_space-skip c s e)
  | inr e ↦
      let u = trim_left (reverse s) in
      ap (λ t. trim_space t) (trimmed_from c s e)
      ∙ trimmed_from c (reverse u) e
      ∙ ap (λ t. c ∷ reverse (trim_left t)) (reverse-reverse u)
      ∙ ap (λ t. c ∷ reverse t) (trim_left-trim_left (reverse s))
      ∙ sym (trimmed_from c s e)
]
