-- ===== src/Go/Bufio/Lines.antt =====
-- Lines that are written with "\n" behind each are read back.
use mathlib.Core.List.{reverse, reverse-append, reverse-reverse, cons-ne-nil}
use containerdisks.Base.{
  ℕ, ◌≡◌, ◌∙◌, ◌≢◌, ◌<◌, refl, false, List, [], ◌∷◌, ◌++◌, map, arith, Text, length, any, All, ap,
}
use containerdisks.Go.Result.{ok}
use containerdisks.Go.Strings.{split, grow_head, trim_space, trim_left_space, is_space}
use containerdisks.Go.Strings.Split.{Lacks}
use containerdisks.Go.Bufio.{
  drop_cr, drop_first_cr, drop_empty_last, scan_lines, too_long, max_scan_token_size,
}

-- A text that is not empty, by its last character.
pub snoc_view : (s : Text) → s ≢ [] → (t : Text) × (c : ℕ) × (s ≡ t ++ c ∷ [])
snoc_view [] h = absurd (h refl)
snoc_view (c ∷ []) h = ([], c, refl)
snoc_view (c ∷ d ∷ s) h =
    let (t, e, q) = snoc_view (d ∷ s) (cons-ne-nil d s) in (c ∷ t, e, ap (λ (r : Text). c ∷ r) q)

pub drop_cr-snoc : (t : Text) (c : ℕ) → c ≢ 13 → drop_cr (t ++ c ∷ []) ≡ t ++ c ∷ []
unfolding drop_cr
drop_cr-snoc t c h = ap reverse kept ∙ reverse-reverse (t ++ c ∷ [])
  where
    first : drop_first_cr (c ∷ reverse t) ≡ c ∷ reverse t
    first = ground arith

    kept : drop_first_cr (reverse (t ++ c ∷ [])) ≡ reverse (t ++ c ∷ [])
    kept = rw reverse-append first

trim_left_stop : (c : ℕ) (s : Text) → is_space c ≡ false → trim_left_space (c ∷ s) ≡ c ∷ s
unfolding trim_left_space
trim_left_stop c s h = rw h

-- A text that begins and ends with no space is trimmed to itself.
pub trim_space_self :
    (c : ℕ) (t : Text) (d : ℕ)
    → is_space c ≡ false
    → is_space d ≡ false
    → trim_space (c ∷ t ++ d ∷ []) ≡ c ∷ t ++ d ∷ []
unfolding trim_space
trim_space_self c t d hc hd = rw (trim_left_stop c (t ++ d ∷ []) hc) at_end
  where
    kept : trim_left_space (reverse (c ∷ t ++ d ∷ [])) ≡ reverse (c ∷ t ++ d ∷ [])
    kept = rw (reverse-append (c ∷ t) (d ∷ [])) (trim_left_stop d (reverse (c ∷ t)) hd)

    at_end : reverse (trim_left_space (reverse (c ∷ t ++ d ∷ []))) ≡ c ∷ t ++ d ∷ []
    at_end = ap reverse kept ∙ reverse-reverse (c ∷ t ++ d ∷ [])

pub split-Lacks :
    (line rest : Text) (sep : ℕ)
    → Lacks sep line
    → split (line ++ sep ∷ rest) sep ≡ line ∷ split rest sep
unfolding split grow_head
split-Lacks [] rest sep h = ground arith
split-Lacks (c ∷ line) rest sep h = ground (arith, split-Lacks line rest sep)

-- A text with no separator is its only part.
pub split-Lacks_self : (s : Text) (sep : ℕ) → Lacks sep s → split s sep ≡ s ∷ []
unfolding split grow_head
split-Lacks_self [] sep h = refl
split-Lacks_self (c ∷ s) sep h = ground (arith, split-Lacks_self s sep)

-- Every line with "\n" behind it.
unfoldable pub unlines : List Text → Text
unlines [] = []
unlines (line ∷ lines) = line ++ 10 ∷ unlines lines

-- A line that the scanner hands out as it stands: not too long, with no "\n", and no "\r" at its
-- end.
pub record IsLine (s : Text) : Type 0 where
  pub fits : length s < max_scan_token_size
  pub one_line : Lacks 10 s
  pub no_cr : drop_cr s ≡ s

split-unlines : (lines : List Text) → All IsLine lines → split (unlines lines) 10 ≡ lines ++ [] ∷ []
unfolding unlines
split-unlines [] h = unfold split in refl
split-unlines (line ∷ lines) h =
    split-Lacks line (unlines lines) 10 h.0.one_line
    ∙ ap (λ ls. line ∷ ls) (split-unlines lines h.1)

drop_empty_last-snoc : (lines : List Text) → drop_empty_last (lines ++ [] ∷ []) ≡ lines
unfolding drop_empty_last
drop_empty_last-snoc [] = refl
drop_empty_last-snoc (l ∷ []) = ground arith
drop_empty_last-snoc (l ∷ k ∷ lines) = ap (λ ls. l ∷ ls) (drop_empty_last-snoc (k ∷ lines))

any-too_long : (lines : List Text) → All IsLine lines → any too_long lines ≡ false
any-too_long [] h = refl
any-too_long (l ∷ lines) h = let fits = h.0.fits in ground (arith, any-too_long lines h.1)

map-drop_cr : (lines : List Text) → All IsLine lines → map drop_cr lines ≡ lines
map-drop_cr [] h = refl
map-drop_cr (l ∷ lines) h = cc (h.0.no_cr, map-drop_cr lines h.1)

pub scan_lines-unlines :
    (lines : List Text) → All IsLine lines → scan_lines (unlines lines) ≡ ok lines
unfolding scan_lines
scan_lines-unlines lines h =
    rw
      (split-unlines lines h, drop_empty_last-snoc lines, any-too_long lines h, map-drop_cr lines h)
