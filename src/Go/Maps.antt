-- ===== src/Go/Maps.antt =====
-- Go's maps with string keys, as association lists. A `range` over a map visits its keys in an
-- order of the run time's choice: what iterates takes that order as a parameter.
use containerdisks.Base.{
  ◌≡◌, refl, Option, none, some, List, [], ◌∷◌, arith, Text, text_beq, text_beq_iff, ◌==◌, text_eq,
  if◌then◌else◌,
}

abbrev pub Map {ℓ} : Type ℓ → Type ℓ
Map V = List (Text × V)

module _ {ℓ} {V : Type ℓ} where
  abbrev pub empty : Map V
  empty = []

  -- `value, ok := pairs[key]`
  unfoldable pub lookup : Text → Map V → Option V
  unfolding text_beq
  lookup key [] = none
  lookup key ((name, value) ∷ pairs) =
      let later = lookup key pairs in if name == key then some value else later

  -- `pairs[key] = value`
  unfoldable pub insert : Text → V → Map V → Map V
  unfolding text_beq
  insert key value [] = (key, value) ∷ []
  insert key value ((name, old) ∷ pairs) =
      let later = insert key value pairs in
      if name == key then (key, value) ∷ pairs else (name, old) ∷ later

  unfoldable pub keys : Map V → List Text
  keys [] = []
  keys ((k, v) ∷ m) = k ∷ keys m

  -- What an assignment to one key does to the reading of any key.
  pub lookup-insert :
      (key asked : Text) (value : V) (pairs : Map V)
      → lookup asked (insert key value pairs)
        ≡ (if key == asked then some value else lookup asked pairs)
  unfolding lookup insert
  lookup-insert key asked value [] = refl
  lookup-insert key asked value ((name, old) ∷ pairs) = ground (
    arith,
    text_beq_iff name key,
    text_beq_iff key asked,
    text_beq_iff name asked,
    lookup-insert key asked value pairs,
  )
