-- ===== src/Go/Regexp.antt =====
-- Package regexp, for the patterns that the program compiles: a row of characters classes, each
-- taken once or, greedily, once or more, with `$` as an item. A match backtracks as Go's does: the
-- longest run of a class is tried first.
pub mod Greedy
pub mod Decides
use containerdisks.Base.{
  ℕ, Bool, Option, none, some, List, [], ◌∷◌, ◌++◌, map, Text, ◌==◌, nat_eq, if◌then◌else◌,
}

pub data Item : Type 0 where
  -- one character of a class
  one : (ℕ → Bool) → Item
  -- one or more of a class; the flag says that the run is a group of its own
  plus : Bool → (ℕ → Bool) → Item
  -- `$`
  end : Item

-- What FindStringSubmatch returns: the text of the match, then that of each group.
pub record Match : Type 0 where
  pub whole : Text
  pub groups : List Text

abbrev pub found_or : Option Match → Option Match → Option Match
found_or none other = other
found_or (some m) other = some m

-- A character in front of a match.
unfoldable pub take_one : ℕ → Option Match → Option Match
take_one c none = none
take_one c (some m) = some (record m { whole = c ∷ m.whole })

-- A run in front of a match, as a group if `keep`.
unfoldable pub take_run : Bool → Text → Option Match → Option Match
take_run keep run none = none
take_run keep run (some m) =
    some (record { whole = run ++ m.whole; groups = if keep then run ∷ m.groups else m.groups })

-- Behind the run taken so far: first with one more character, then without.
unfoldable pub star : Bool → (ℕ → Bool) → (Text → Option Match) → Text → Text → Option Match
unfolding take_run
star keep p next run [] = take_run keep run (next [])
star keep p next run (c ∷ s) =
    let longer = star keep p next (run ++ c ∷ []) s in
    let here = take_run keep run (next (c ∷ s)) in if p c then found_or longer here else here

-- The match of a pattern that starts where the text starts.
unfoldable pub match_here : List Item → Text → Option Match
unfolding take_one star
match_here [] s = some (record { whole = []; groups = [] })
match_here (end ∷ items) [] = match_here items []
match_here (end ∷ items) (c ∷ s) = none
match_here (one p ∷ items) [] = none
match_here (one p ∷ items) (c ∷ s) =
    let rest = match_here items s in if p c then take_one c rest else none
match_here (plus keep p ∷ items) [] = none
match_here (plus keep p ∷ items) (c ∷ s) =
    let run = star keep p (match_here items) (c ∷ []) s in if p c then run else none

-- The leftmost match of a pattern with no `^`.
unfoldable pub find_submatch : List Item → Text → Option Match
unfolding match_here
find_submatch items [] = match_here items []
find_submatch items (c ∷ s) =
    let later = find_submatch items s in found_or (match_here items (c ∷ s)) later

-- The items of a literal text.
unfoldable pub literal : Text → List Item
literal = map (λ c. one (λ d. d == c))
