-- ===== src/Guard/Keys.antt =====
-- internal/guard/engine.go: the key of an entry tells its index and its group apart.
use cpa_antigravity_quota_gu.Prelude.{
  ◌≡◌, refl, Bool, true, false, ◌||◌, [], ◌∷◌, ◌++◌, arith, Text, ◌==◌,
}
use cpa_antigravity_quota_gu.Guard.Types.{
  ModelGroup, gemini, claude_gpt, other_group, group_text, group_valid,
}
use cpa_antigravity_quota_gu.Guard.Engine.{entry_key}

abbrev has_nul : Text → Bool
has_nul [] = false
has_nul (c ∷ s) = c == 0 || has_nul s

has_nul-append : (a s : Text) → has_nul (a ++ (0 ∷ s)) ≡ true
has_nul-append [] s = refl
has_nul-append (c ∷ a) s = ground (arith, has_nul-append a s)

-- Texts joined by a NUL come apart again where the second has none.
split_unique :
    (a b s t : Text)
    → has_nul s ≡ false
    → has_nul t ≡ false
    → a ++ (0 ∷ s) ≡ b ++ (0 ∷ t)
    → (a ≡ b) × (s ≡ t)
split_unique [] [] s t hs ht e = (refl, cc)
split_unique [] (d ∷ b) s t hs ht e = ground (arith, has_nul-append b t)
split_unique (c ∷ a) [] s t hs ht e = ground (arith, has_nul-append a s)
split_unique (c ∷ a) (d ∷ b) s t hs ht e = let (p, q) = split_unique a b s t hs ht (cc) in (cc, q)

group_text-no_nul : (g : ModelGroup) → group_valid g ≡ true → has_nul (group_text g) ≡ false
group_text-no_nul gemini h = refl
group_text-no_nul claude_gpt h = refl
group_text-no_nul (other_group s) h = cc

group_text-injective :
    (g h : ModelGroup)
    → group_valid g ≡ true
    → group_valid h ≡ true
    → group_text g ≡ group_text h
    → g ≡ h
group_text-injective g h v w e = ground arith

-- Two entries of the engine's map share a key only if they share index and group, whatever the
-- characters of the index.
pub entry_key-injective :
    (a b : Text) (g h : ModelGroup)
    → group_valid g ≡ true
    → group_valid h ≡ true
    → entry_key a g ≡ entry_key b h
    → (a ≡ b) × (g ≡ h)
unfolding entry_key
entry_key-injective a b g h v w e =
    let (p, q) =
      split_unique a b (group_text g) (group_text h) (group_text-no_nul g v) (group_text-no_nul h w)
        e in
    (p, group_text-injective g h v w q)
