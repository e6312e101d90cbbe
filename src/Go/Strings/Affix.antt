-- ===== src/Go/Strings/Affix.antt =====
-- Prefixes and suffixes.
use mathlib.Core.List.{reverse, reverse-append, reverse-reverse}
use containerdisks.Base.{◌≡◌, refl, true, [], ◌∷◌, ◌++◌, arith, Text}
use containerdisks.Go.Strings.{has_prefix, has_suffix, cut_prefix, trim_prefix, trim_suffix}

pub has_prefix-append : (p s : Text) → has_prefix (p ++ s) p ≡ true
unfolding has_prefix
has_prefix-append [] [] = refl
has_prefix-append [] (b ∷ s) = refl
has_prefix-append (a ∷ p) s = ground (arith, has_prefix-append p s)

cut_prefix-append : (p s : Text) → cut_prefix (p ++ s) p ≡ s
unfolding cut_prefix
cut_prefix-append [] [] = refl
cut_prefix-append [] (b ∷ s) = refl
cut_prefix-append (a ∷ p) s = cut_prefix-append p s

-- A text that has the prefix is the prefix and what is behind it.
pub has_prefix_sound : (s p : Text) → has_prefix s p ≡ true → s ≡ p ++ cut_prefix s p
unfolding has_prefix cut_prefix
has_prefix_sound [] [] h = refl
has_prefix_sound (a ∷ s) [] h = refl
has_prefix_sound [] (b ∷ p) h = cc
has_prefix_sound (a ∷ s) (b ∷ p) h = ground (arith, has_prefix_sound s p)

pub trim_prefix-append : (p s : Text) → trim_prefix (p ++ s) p ≡ s
unfolding trim_prefix
trim_prefix-append p s = rw has_prefix-append (cut_prefix-append p s)

pub has_suffix-append : (s p : Text) → has_suffix (s ++ p) p ≡ true
unfolding has_suffix
has_suffix-append s p = rw reverse-append (has_prefix-append (reverse p) (reverse s))

pub trim_suffix-append : (s p : Text) → trim_suffix (s ++ p) p ≡ s
unfolding trim_suffix
trim_suffix-append s p =
    rw (has_suffix-append, reverse-append) (rw cut_prefix-append (reverse-reverse s))
