-- ===== src/Go/Strings.antt =====
-- Package strings, on texts of ASCII bytes.
pub mod Split
pub mod Affix
use mathlib.Core.List.{reverse}
use containerdisks.Base.{
  ℕ, ◌+◌, Bool, true, false, ◌&&◌, ◌||◌, List, [], ◌∷◌, ◌++◌, map, Text, leb, ◌==◌, nat_eq,
  if◌then◌else◌,
}

unfoldable pub has_prefix : Text → Text → Bool
has_prefix s [] = true
has_prefix [] (b ∷ p) = false
has_prefix (a ∷ s) (b ∷ p) = a == b && has_prefix s p

unfoldable pub has_suffix : Text → Text → Bool
unfolding has_prefix
has_suffix s p = has_prefix (reverse s) (reverse p)

-- What is behind a prefix, where there is one.
unfoldable pub cut_prefix : Text → Text → Text
cut_prefix s [] = s
cut_prefix [] (b ∷ p) = []
cut_prefix (a ∷ s) (b ∷ p) = cut_prefix s p

unfoldable pub trim_prefix : Text → Text → Text
unfolding has_prefix cut_prefix
trim_prefix s p = if has_prefix s p then cut_prefix s p else s

unfoldable pub trim_suffix : Text → Text → Text
unfolding has_suffix cut_prefix
trim_suffix s p = if has_suffix s p then reverse (cut_prefix (reverse s) (reverse p)) else s

unfoldable pub contains : Text → Text → Bool
unfolding has_prefix
contains [] p = has_prefix [] p
contains (a ∷ s) p = has_prefix (a ∷ s) p || contains s p

-- \t, \n, \v, \f, \r and the blank.
unfoldable pub is_space : ℕ → Bool
is_space c = leb 9 c && leb c 13 || c == 32

unfoldable pub trim_left_space : Text → Text
unfolding is_space
trim_left_space [] = []
trim_left_space (c ∷ s) = let rest = trim_left_space s in if is_space c then rest else c ∷ s

unfoldable pub trim_space : Text → Text
unfolding trim_left_space
trim_space s = reverse (trim_left_space (reverse (trim_left_space s)))

-- A character put before the first part.
unfoldable pub grow_head : ℕ → List Text → List Text
grow_head c [] = (c ∷ []) ∷ []
grow_head c (p ∷ ps) = (c ∷ p) ∷ ps

-- Split at a separator of one byte: there is always a part.
unfoldable pub split : Text → ℕ → List Text
unfolding grow_head
split [] sep = [] ∷ []
split (c ∷ s) sep = let rest = split s sep in if c == sep then [] ∷ rest else grow_head c rest

-- The parts with the separator between them.
unfoldable pub join : List Text → ℕ → Text
join [] sep = []
join (p ∷ []) sep = p
join (p ∷ q ∷ ps) sep = p ++ sep ∷ join (q ∷ ps) sep

-- The maximal runs of characters that are no space.
unfoldable pub fields : Text → List Text
unfolding is_space grow_head
fields [] = []
fields (c ∷ []) = if is_space c then [] else (c ∷ []) ∷ []
fields (c ∷ d ∷ s) =
    let rest = fields (d ∷ s) in
    if is_space c then rest else if is_space d then (c ∷ []) ∷ rest else grow_head c rest

unfoldable pub to_lower_byte : ℕ → ℕ
to_lower_byte c = if leb b'A' c && leb c b'Z' then c + 32 else c

unfoldable pub to_lower : Text → Text
unfolding to_lower_byte
to_lower s = map to_lower_byte s

-- ReplaceAll of one byte by another.
unfoldable pub replace_byte : ℕ → ℕ → ℕ → ℕ
replace_byte old new c = if c == old then new else c

unfoldable pub replace_all : Text → ℕ → ℕ → Text
unfolding replace_byte
replace_all s old new = map (replace_byte old new) s
