-- ===== src/Medius/Promote.antt =====
-- cmd/medius/images/promote.go: the promotion of an entry. `results` is what the results file holds.
-- The logger is left out.
pub mod Copies
pub mod DryRun
use containerdisks.Base.{
  Bool, Option, none, some, List, [], ◌∷◌, ◌++◌, Text, codes, ◌==◌, text_eq, text_beq,
}
use containerdisks.Go.Result.{plain, canceled, message, Result}
use containerdisks.Go.Path.{path_join}
use containerdisks.Go.Maps.{Map, lookup}
use containerdisks.Api.{ArtifactResult, Metadata, Options, describe}
use containerdisks.Effects.{branch, Eff, pure, raise, call, on_error, ◌>>=◌, ◌>>◌}
use containerdisks.Medius.Workers.{Outcome, stage_verify, stage_promote}

-- The registry and the context.
pub record Registries : Type 1 where
  pub World : Type 0
  pub canceled : World → Result Bool × World
  pub copy_image : Text → Text → Bool → World → Result (Unit {0}) × World

-- A copy of an image, from a reference to another.
pub record Copy : Type 0 where
  pub source : Text
  pub target : Text

module _ (R : Registries) (options : Options) where
  open R use {World}

  -- The end of a round.
  unfoldable pub check_canceled : Eff World Copy (Unit {0})
  check_canceled = do stop ← call [] R.canceled; branch stop (raise canceled) (pure tt)

  unfoldable pub copy : Text → Text → Eff World Copy (Unit {0})
  copy source target = branch options.dry_run (pure tt) (
      call (record { source = source; target = target } ∷ [])
        (R.copy_image source target options.allow_insecure_registry))

  abbrev pub target_of : Text → Text
  target_of tag = path_join (options.promote_image_options.target_registry ∷ tag ∷ [])

  abbrev pub source_of : Text → Text
  source_of tag = path_join (options.promote_image_options.source_registry ∷ tag ∷ [])

  -- The loop over the tags.
  unfoldable pub copy_all : Text → List Text → Eff World Copy (Unit {0})
  copy_all source [] = pure tt
  copy_all source (tag ∷ tags) = do
    copy source (target_of tag)
    check_canceled
    copy_all source tags

  unfoldable pub promote_artifact : List Text → Eff World Copy (Unit {0})
  promote_artifact [] = raise (plain (codes "no containerdisks to promote"))
  promote_artifact (tag ∷ tags) = copy_all (source_of tag) (tag ∷ tags)

  abbrev pub promoted : List Text → Text → ArtifactResult
  promoted tags e = record { tags = tags; stage = stage_promote; err = e }

  -- What is done with an entry that is verified.
  unfoldable pub promote_verified : List Text → Eff World Copy Outcome
  promote_verified tags =
      on_error (λ e. pure (some (promoted tags (message e)), some e))
        (do promote_artifact tags; pure (some (promoted tags []), none))

  -- The guards: the entry has a result, it did not fail, and it is verified.
  unfoldable pub promote_result : Text → Option ArtifactResult → Eff World Copy Outcome
  unfolding text_beq
  promote_result description none = pure (none, none)
  promote_result description (some r) =
      branch (r.err == [])
        (branch (r.stage == stage_verify) (promote_verified r.tags) (pure (none, none)))
        (pure (
          none,
          some (
              plain (
                codes "artifact "
                ++ (description
                    ++ (codes " failed in stage " ++ (r.stage ++ (codes ": " ++ r.err)))))),
        ))

  -- The function that the workers run.
  unfoldable pub promote_entry : Map ArtifactResult → Metadata → Eff World Copy Outcome
  unfolding lookup
  promote_entry results metadata =
      promote_result (describe metadata) (lookup (describe metadata) results)
