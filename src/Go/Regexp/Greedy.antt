-- ===== src/Go/Regexp/Greedy.antt =====
-- How far a greedy run goes.
use containerdisks.Base.{
  ◌≢◌, ℕ, ◌≡◌, refl, Bool, true, false, Option, some, List, [], ◌∷◌, ◌++◌, append_assoc, append-nil,
  Text, All,
}
use containerdisks.Go.Regexp.{Item, one, plus, end, Match, take_one, take_run, star, match_here}

-- A text that a class takes nothing of.
abbrev pub Stops : (ℕ → Bool) → Text → Type 0
Stops p [] = Unit
Stops p (c ∷ s) = p c ≡ false

module _ (keep : Bool) (p : ℕ → Bool) (next : Text → Option Match) where
  -- Where the class takes nothing more, the run ends.
  star_stop : (run s : Text) → Stops p s → star keep p next run s ≡ take_run keep run (next s)
  unfolding star
  star_stop run [] h = refl
  star_stop run (c ∷ s) h = rw h

  -- The longest run is taken, if the rest of the pattern matches behind it.
  pub star-append :
      (run w s : Text) (m : Match)
      → All (λ c. p c ≡ true) w
      → Stops p s
      → next s ≡ some m
      → star keep p next run (w ++ s) ≡ take_run keep (run ++ w) (some m)
  unfolding star take_run
  star-append run [] s m h stop e = rw (star_stop run s stop, e, append-nil)
  star-append run (c ∷ w) s m h stop e =
      rw (h.0, star-append (run ++ c ∷ []) w s m h.1 stop e) (simp append_assoc)

-- A class taken once or more takes all of a longest run.
pub match_here-plus :
    (keep : Bool) (p : ℕ → Bool) (items : List Item) (w s : Text) (m : Match)
    → w ≢ []
    → All (λ c. p c ≡ true) w
    → Stops p s
    → match_here items s ≡ some m
    → match_here (plus keep p ∷ items) (w ++ s) ≡ take_run keep w (some m)
unfolding match_here take_run
match_here-plus keep p items [] s m ne h stop e = absurd (ne refl)
match_here-plus keep p items (c ∷ w) s m ne h stop e =
    rw h.0 (star-append keep p (match_here items) (c ∷ []) w s m h.1 stop e)

-- The same at the end of the pattern and of the text.
pub match_here-plus-end :
    (p : ℕ → Bool) (w : Text)
    → w ≢ []
    → All (λ c. p c ≡ true) w
    → match_here (plus true p ∷ end ∷ []) w ≡ some (record { whole = w; groups = w ∷ [] })
unfolding match_here take_run
match_here-plus-end p w ne h =
    rw append-nil at (match_here-plus true p (end ∷ []) w [] _ ne h tt refl)

pub match_here-one :
    (p : ℕ → Bool) (items : List Item) (c : ℕ) (s : Text) (m : Match)
    → p c ≡ true
    → match_here items s ≡ some m
    → match_here (one p ∷ items) (c ∷ s) ≡ take_one c (some m)
unfolding match_here
match_here-one p items c s m h e = rw (h, e)
