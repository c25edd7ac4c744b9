-- ===== src/Configuration/Components.antt =====
-- internal/config/config.go: the components of a cleaned path.
use mathlib.Core.List.{reverse-cons}
use cpa_antigravity_quota_gu.Prelude.{
  ℕ, ◌≡◌, refl, sym, ap, ◌∙◌, subst, ◌⊎◌, Bool, true, false, ◌&&◌, ◌||◌, not, inl, inr, List, [],
  ◌∷◌, ◌++◌, reverse, ◌==◌, arith, Bool-cases, Text, codes, is_empty, has_prefix, All, All-append,
}
use cpa_antigravity_quota_gu.Configuration.Paths.{
  onto_first, named_path, split_at, join_with, is_dot, is_dot_dot, any_dot_dot, clean_parts,
}

-- A component of a path that names an entry of its directory.
abbrev pub named : Text → Bool
named w = not (is_empty w || is_dot w || is_dot_dot w)

abbrev pub no_slash : Text → Bool
no_slash [] = true
no_slash (c ∷ s) = not (c == 47) && no_slash s

abbrev pub Component : Text → Type 0
Component w = (named w && no_slash w) ≡ true

abbrev pub NoSlash : Text → Type 0
NoSlash w = no_slash w ≡ true

pub onto_first-NoSlash :
    (c : ℕ) (ws : List Text) → (c == 47) ≡ false → All NoSlash ws → All NoSlash (onto_first c ws)
onto_first-NoSlash c [] h k = (ground arith, tt)
onto_first-NoSlash c (w ∷ ws) h (k, ks) = (ground arith, ks)

pub split_at-NoSlash : (s : Text) → All NoSlash (split_at 47 s)
unfolding split_at
split_at-NoSlash [] = (refl, tt)
split_at-NoSlash (c ∷ s) = elim (Bool-cases (c == 47)) [
  | inl e ↦ rw e (refl, split_at-NoSlash s)
  | inr e ↦ rw e (onto_first-NoSlash c (split_at 47 s) e (split_at-NoSlash s))
]

pub clean_parts-Component :
    (kept ws : List Text)
    → All Component kept
    → All NoSlash ws
    → any_dot_dot ws ≡ false
    → All Component (clean_parts false kept ws)
unfolding clean_parts
clean_parts-Component kept [] h k e = h
clean_parts-Component kept (w ∷ ws) h (k, ks) e = elim (Bool-cases (is_empty w || is_dot w)) [
  | inl t ↦ rw t (clean_parts-Component kept ws h ks (ground arith))
  | inr f ↦ elim (Bool-cases (is_dot_dot w)) [
    | inl t ↦ absurd (cc (rw t at e))
    | inr g ↦ rw f (rw g (clean_parts-Component (w ∷ kept) ws (ground arith, h) ks (ground arith)))
  ]
]

pub All-reverse : (ws : List Text) → All Component ws → All Component (reverse ws)
All-reverse [] h = tt
All-reverse (w ∷ ws) (h, hs) =
    subst (All Component) (sym (reverse-cons w ws))
      (All-append Component (reverse ws) (w ∷ []) (All-reverse ws hs) (h, tt))

-- A component is the first one of a path that goes on after it.
pub split_at-append : (w s : Text) → NoSlash w → split_at 47 (w ++ (47 ∷ s)) ≡ w ∷ split_at 47 s
unfolding split_at
split_at-append [] s h = refl
split_at-append (c ∷ w) s h = ground (arith, split_at-append w s (ground arith))

pub split_at-single : (w : Text) → NoSlash w → split_at 47 w ≡ w ∷ []
unfolding split_at
split_at-single [] h = refl
split_at-single (c ∷ w) h = ground (arith, split_at-single w (ground arith))

pub split_at-join :
    (w : Text) (ws : List Text)
    → All Component (w ∷ ws)
    → split_at 47 (join_with (codes "/") (w ∷ ws)) ≡ w ∷ ws
unfolding join_with
split_at-join w [] (h, hs) = split_at-single w (ground arith)
split_at-join w (v ∷ ws) (h, hs) =
    split_at-append w (join_with (codes "/") (v ∷ ws)) (ground arith)
    ∙ ap (λ us. w ∷ us) (split_at-join v ws hs)

pub has_prefix-append : (s p : Text) → has_prefix s p ≡ true → (r : Text) × (s ≡ p ++ r)
unfolding has_prefix
has_prefix-append s [] h = (s, refl)
has_prefix-append [] (b ∷ p) h = cc
has_prefix-append (a ∷ s) (b ∷ p) h =
    let (r, e) = has_prefix-append s p (ground arith) in (r, ground (arith, e))

pub split_at-cons : (s : Text) → (w : Text) × ((ws : List Text) × (split_at 47 s ≡ w ∷ ws))
unfolding split_at
split_at-cons [] = ([], ([], refl))
split_at-cons (c ∷ s) = elim (Bool-cases (c == 47)) [
  | inl e ↦ ([], (split_at 47 s, rw e refl))
  | inr e ↦ let (w, (ws, f)) = split_at-cons s in (c ∷ w, (ws, rw e (rw f refl)))
]

pub named_path-join :
    (c : ℕ) (w : Text) (ws : List Text)
    → named_path false (join_with (codes "/") ((c ∷ w) ∷ ws)) ≡ join_with (codes "/") ((c ∷ w) ∷ ws)
unfolding join_with
named_path-join c w [] = refl
named_path-join c w (v ∷ ws) = refl

-- What a cleaned relative path that goes nowhere up consists of.
pub named_path-split :
    (ws : List Text)
    → All Component ws
    → (ws ≡ []) ⊎ (split_at 47 (named_path false (join_with (codes "/") ws)) ≡ ws)
named_path-split [] h = inl refl
named_path-split ([] ∷ ws) h = absurd (ground arith)
named_path-split ((c ∷ w) ∷ ws) h =
    inr (ap (λ t. split_at 47 t) (named_path-join c w ws) ∙ split_at-join (c ∷ w) ws h)
