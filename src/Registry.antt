-- ===== src/Registry.antt =====
-- cmd/medius/common/registry.go: the containerdisks that the commands work on.
pub mod Static
pub mod Laws
use containerdisks.Base.{
  Bool, true, false, ◌&&◌, Option, none, some, List, [], ◌∷◌, ◌++◌, Text, codes, text_beq, ◌==◌,
  text_eq, if◌then◌else◌,
}
use containerdisks.Go.Result.{Result, ok, err, panic, ◌>>=◌}
use containerdisks.Go.Strings.{split}
use containerdisks.Api.{Metadata, describe}

-- An entry over any type of artifacts.
pub record Entry (A : Type 0) : Type 0 where
  pub artifacts : List A
  pub use_for_docs : Bool
  pub use_for_latest : Bool
  pub skip_when_not_focused : Bool

module _ {A : Type 0} (metadata : A → Metadata) where
  -- The loop over the groups of one gatherer. The flag says that no stable group came before. The
  -- first artifact of a group is read, which an empty group does not have.
  unfoldable pub add_groups : Bool → List (List A) → List (Entry A) → Result (List (Entry A))
  add_groups first_stable [] registry = ok registry
  add_groups first_stable ([] ∷ groups) registry =
      panic (codes "index out of range [0] with length 0")
  add_groups first_stable ((a ∷ as') ∷ groups) registry =
      let is_stable = (metadata a).is_stable in
      add_groups (if is_stable then false else first_stable) groups (
        registry
        ++ record {
          artifacts = a ∷ as';
          use_for_docs = first_stable && is_stable;
          use_for_latest = first_stable && is_stable;
          skip_when_not_focused = false;
        }
          ∷ [])

  -- The loop over the gatherers, each by what it returned: one that failed adds nothing.
  unfoldable pub gather_artifacts :
      List (Entry A) → List (Result (List (List A))) → Result (List (Entry A))
  unfolding add_groups
  gather_artifacts registry [] = ok registry
  gather_artifacts registry (ok groups ∷ gatherers) = do
    extended ← add_groups true groups registry
    gather_artifacts extended gatherers
  gather_artifacts registry (err e ∷ gatherers) = gather_artifacts registry gatherers
  gather_artifacts registry (panic m ∷ gatherers) = panic m

  -- A focus that names all versions: two parts, the second an asterisk.
  unfoldable pub wildcard_name : List Text → Option Text
  unfolding text_beq
  wildcard_name (name ∷ version ∷ []) = if version == codes "*" then some name else none
  wildcard_name _ = none

  abbrev skip_by : Text → Metadata → Option Text → Bool
  skip_by focus m (some name) = if name == m.name then false else true
  skip_by focus m none = if focus == describe m then false else true

  abbrev skip_focused : Text → List A → Bool
  skip_focused focus [] = true
  skip_focused focus (a ∷ as') = skip_by focus (metadata a) (wildcard_name (split focus b':'))

  unfoldable pub should_skip : Text → Entry A → Bool
  unfolding wildcard_name split describe text_beq
  should_skip [] entry = entry.skip_when_not_focused
  should_skip (c ∷ focus) entry = skip_focused (c ∷ focus) entry.artifacts
