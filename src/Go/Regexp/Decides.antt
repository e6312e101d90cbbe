-- ===== src/Go/Regexp/Decides.antt =====
-- `match_here` decides a declarative reading of the pattern.
use mathlib.Core.List.{cons-ne-nil}
use containerdisks.Base.{
  ℕ, ◌≡◌, ◌≢◌, ◌∙◌, ap, refl, Bool, true, Option, none, some, List, [], ◌∷◌, ◌++◌, append_assoc,
  append-nil, arith, Text, All, Bool-cases, inl, inr, Option-cases, if◌then◌else◌,
}
use containerdisks.Go.Regexp.{Item, one, plus, end, Match, take_one, take_run, star, match_here}

abbrev pub run_match : Bool → Text → Match → Match
run_match keep w m = record {
  whole = w ++ m.whole;
  groups = if keep then w ∷ m.groups else m.groups;
}

abbrev pub one_match : ℕ → Match → Match
one_match c m = record m { whole = c ∷ m.whole }

-- `Matches items s m`: a prefix of `s` is made of what the items stand for, and `m` records it.
abbrev pub Matches : List Item → Text → Match → Type 0
Matches [] s m = (m.whole ≡ []) × (m.groups ≡ [])
Matches (end ∷ items) s m = (s ≡ []) × Matches items s m
Matches (one p ∷ items) s m =
    (c : ℕ) × (t : Text) × (n : Match) × (s ≡ c ∷ t)
    × (p c ≡ true)
    × Matches items t n
    × (m ≡ one_match c n)
Matches (plus keep p ∷ items) s m =
    (w : Text) × (t : Text) × (n : Match) × (s ≡ w ++ t)
    × (w ≢ [])
    × All (λ c. p c ≡ true) w
    × Matches items t n
    × (m ≡ run_match keep w n)

module _ (keep : Bool) (p : ℕ → Bool) (next : Text → Option Match) where
  -- The rest `s` begins with a longer run `w`, behind which the rest of the pattern matches.
  abbrev StarSplit : Text → Text → Match → Type 0
  StarSplit run s m =
      (w : Text) × (t : Text) × (n : Match) × (s ≡ w ++ t)
      × All (λ c. p c ≡ true) w
      × (next t ≡ some n)
      × (m ≡ run_match keep (run ++ w) n)

  here_split : (run s : Text) (m : Match) → take_run keep run (next s) ≡ some m → StarSplit run s m
  unfolding take_run
  here_split run s m h = elim (Option-cases (next s)) [
    | inl e ↦ absurd (not_none (rw e at h))
    | inr (n, e) ↦ ([], s, n, refl, tt, e, rw append-nil (made n (rw e at h)))
  ]
    where
      not_none : take_run keep run none ≡ some m → ⊥
      not_none q = cc

      made : (n : Match) → take_run keep run (some n) ≡ some m → m ≡ run_match keep run n
      made n q = ground arith

  longer_split :
      (run : Text) (c : ℕ) (s : Text) (m : Match)
      → p c ≡ true
      → StarSplit (run ++ c ∷ []) s m
      → StarSplit run (c ∷ s) m
  longer_split run c s m pc (w, t, n, e, all_w, en, em) = (
    c ∷ w,
    t,
    n,
    ap (λ (r : Text). c ∷ r) e,
    (pc, all_w),
    en,
    em ∙ ap (λ r. run_match keep r n) (append_assoc run (c ∷ []) w),
  )

  -- A run that was found is a run behind which the rest of the pattern matches.
  star_sound : (run s : Text) (m : Match) → star keep p next run s ≡ some m → StarSplit run s m
  unfolding star
  star_sound run [] m h = here_split run [] m h
  star_sound run (c ∷ s) m h = elim (Bool-cases (p c)) [
    | inl pc ↦ elim (Option-cases (star keep p next (run ++ c ∷ []) s)) [
      | inl e ↦ here_split run (c ∷ s) m (rw (pc, e) at h)
      | inr (n, e) ↦
          longer_split run c s m pc (star_sound (run ++ c ∷ []) s m (e ∙ rw (pc, e) at h))
    ]
    | inr pc ↦ here_split run (c ∷ s) m (rw pc at h)
  ]

  -- A run behind which the rest of the pattern matches is enough for a match to be found.
  star_complete :
      (run w t : Text)
      → All (λ c. p c ≡ true) w
      → next t ≢ none
      → star keep p next run (w ++ t) ≢ none
  unfolding star take_run
  star_complete run [] [] h k = ground (arith, Option-cases (next []))
  star_complete run [] (c ∷ t) h k = ground (arith, Option-cases (next (c ∷ t)))
  star_complete run (c ∷ w) t h k = ground (arith, star_complete (run ++ c ∷ []) w t)

match_here_sound :
    (items : List Item) (s : Text) (m : Match) → match_here items s ≡ some m → Matches items s m
unfolding match_here take_one
match_here_sound [] s m h = ground arith
match_here_sound (end ∷ items) [] m h = (refl, match_here_sound items [] m h)
match_here_sound (end ∷ items) (c ∷ s) m h = cc
match_here_sound (one p ∷ items) [] m h = cc
match_here_sound (one p ∷ items) (c ∷ s) m h = elim (Bool-cases (p c)) [
  | inl pc ↦ elim (Option-cases (match_here items s)) [
    | inl e ↦ absurd (cc (rw (pc, e) at h))
    | inr (n, e) ↦
        (c, s, n, refl, pc, match_here_sound items s n e, ground (arith, rw (pc, e) at h))
  ]
  | inr pc ↦ absurd (cc (rw pc at h))
]
match_here_sound (plus keep p ∷ items) [] m h = cc
match_here_sound (plus keep p ∷ items) (c ∷ s) m h = elim (Bool-cases (p c)) [
  | inl pc ↦
      let (w, t, n, e, all_w, en, em) =
        star_sound keep p (match_here items) (c ∷ []) s m (rw pc at h) in
      (
        c ∷ w,
        t,
        n,
        ap (λ (r : Text). c ∷ r) e,
        cons-ne-nil c w,
        (pc, all_w),
        match_here_sound items t n en,
        em,
      )
  | inr pc ↦ absurd (cc (rw pc at h))
]

match_here_complete :
    (items : List Item) (s : Text) (m : Match) → Matches items s m → match_here items s ≢ none
unfolding match_here take_one
match_here_complete [] s m h e = cc
match_here_complete (end ∷ items) s m (z, h) e =
    match_here_complete items [] m (rw z at h) (rw z at e)
match_here_complete (one p ∷ items) s m (c, t, n, es, pc, h, em) e =
    let stuck = rw (es, pc) at e in
    ground (arith, match_here_complete items t n h, Option-cases (match_here items t))
match_here_complete (plus keep p ∷ items) s m ([], t, n, es, ne, all_w, h, em) e = ne refl
match_here_complete (plus keep p ∷ items) s m (c ∷ w, t, n, es, ne, (pc, all_w), h, em) e =
    star_complete keep p (match_here items) (c ∷ []) w t all_w (match_here_complete items t n h)
      (rw (es, pc) at e)
