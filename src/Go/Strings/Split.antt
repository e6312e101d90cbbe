-- ===== src/Go/Strings/Split.antt =====
-- What `split` promises: it is undone by `join`, and no part holds the separator.
use containerdisks.Base.{
  ℕ, ◌≡◌, ◌≢◌, refl, List, [], ◌∷◌, arith, Text, All, ◌==◌, nat_eq, if◌then◌else◌,
}
use containerdisks.Go.Strings.{split, join, grow_head}

abbrev pub Lacks : ℕ → Text → Type 0
Lacks b = All (λ c. c ≢ b)

split-ne-nil : (s : Text) (sep : ℕ) → split s sep ≢ []
unfolding split
split-ne-nil [] sep h = cc
split-ne-nil (c ∷ s) sep h = ground (arith, grow_head-ne-nil (split s sep))
  where
    grow_head-ne-nil : (ps : List Text) → grow_head c ps ≢ []
    grow_head-ne-nil [] e = cc
    grow_head-ne-nil (p ∷ ps) e = cc

join-grow_head :
    (c sep : ℕ) (ps : List Text) → ps ≢ [] → join (grow_head c ps) sep ≡ c ∷ join ps sep
unfolding join grow_head
join-grow_head c sep [] h = absurd (h refl)
join-grow_head c sep (p ∷ []) h = refl
join-grow_head c sep (p ∷ q ∷ ps) h = refl

join-nil-cons : (sep : ℕ) (ps : List Text) → ps ≢ [] → join ([] ∷ ps) sep ≡ sep ∷ join ps sep
unfolding join
join-nil-cons sep [] h = absurd (h refl)
join-nil-cons sep (p ∷ ps) h = refl

pub join-split : (s : Text) (sep : ℕ) → join (split s sep) sep ≡ s
join-split [] sep = unfold split join in refl
join-split (c ∷ s) sep = ground (
  arith,
  join-split s sep,
  join-nil-cons sep (split s sep) (split-ne-nil s sep),
  join-grow_head c sep (split s sep) (split-ne-nil s sep),
  step,
)
  where
    step : split (c ∷ s) sep ≡ (if c == sep then [] ∷ split s sep else grow_head c (split s sep))
    step = unfold split in refl
