-- ===== src/Medius/Push/DryRun.antt =====
-- A dry run of the push command leaves the registry alone.
use containerdisks.Base.{◌≡◌, true, List, [], ◌∷◌, All, Text}
use containerdisks.Go.Time.{Time}
use containerdisks.Api.{Options, ArtifactDetails}
use containerdisks.Registry.{Entry}
use containerdisks.Effects.{branch}
use containerdisks.Effects.Emits.{Emits, emits_rules, Emits-bind, Emits-pure}
use containerdisks.Medius.Env.{Env}
use containerdisks.Medius.Push.Parts
use containerdisks.Medius.Push.Trace.{IsNoPush}
use containerdisks.Medius.Push.{
  check_canceled, rebuild_needed, build_images, push_image, push_image_index, publish, publish_all,
  cleanup_artifacts, build_and_push, run_artifacts, run_entry,
}

module _ (V : Env) (options : Options) where
  open V use {World, Artifact}

  pub Emits-check_canceled : Emits IsNoPush (check_canceled V options)
  Emits-check_canceled = Parts.Emits-check_canceled V options IsNoPush

  pub Emits-rebuild_needed :
      (artifacts : List Artifact) → Emits IsNoPush (rebuild_needed V options artifacts)
  Emits-rebuild_needed = Parts.Emits-rebuild_needed V options IsNoPush

  pub Emits-build_images :
      (artifacts : List Artifact) → Emits IsNoPush (build_images V options artifacts)
  Emits-build_images = Parts.Emits-build_images V options IsNoPush (λ u. tt) (λ f. tt)

  pub Emits-cleanup_artifacts :
      (files : List Text) → Emits IsNoPush (cleanup_artifacts V options files)
  Emits-cleanup_artifacts = Parts.Emits-cleanup_artifacts V options IsNoPush (λ f. tt)

  module _ (dry : options.dry_run ≡ true) where
    Emits-publish :
        (built : List V.images.Image) (name : Text) → Emits IsNoPush (publish V options built name)
    unfolding publish push_image push_image_index
    Emits-publish [] name = search emits_rules
    Emits-publish (image ∷ []) name = rw dry (unfold branch in Emits-pure tt)
    Emits-publish (image ∷ next ∷ rest) name =
        Emits-bind _ _ (search emits_rules) λ index. rw dry (unfold branch in Emits-pure tt)

    Emits-publish_all :
        (built : List V.images.Image) (names : List Text)
        → Emits IsNoPush (publish_all V options built names)
    unfolding publish_all
    Emits-publish_all built [] = search emits_rules
    Emits-publish_all built (name ∷ names) =
        Emits-bind _ _ (Emits-publish built name)
          λ _. Emits-bind _ _ Emits-check_canceled λ _. Emits-publish_all built names

    Emits-build_and_push :
        (first : Artifact) (entry : Entry Artifact) (timestamp : Time) (info : ArtifactDetails)
        → Emits IsNoPush (build_and_push V options first entry timestamp info)
    unfolding build_and_push
    Emits-build_and_push first entry timestamp info =
        search
          (
            emits_rules, Emits-check_canceled, Emits-build_images, Emits-publish_all,
            Emits-cleanup_artifacts,
          )
          depth 9

    Emits-run_artifacts :
        (entry : Entry Artifact) (timestamp : Time) (artifacts : List Artifact)
        → Emits IsNoPush (run_artifacts V options entry timestamp artifacts)
    unfolding run_artifacts
    Emits-run_artifacts entry timestamp [] = search emits_rules
    Emits-run_artifacts entry timestamp (first ∷ others) =
        search (emits_rules, Emits-rebuild_needed, Emits-build_and_push) depth 8

    -- Under `--dry-run`, whatever the environment answers and however the run of an entry ends, no
    -- image and no index is pushed.
    pub run_entry-IsNoPush :
        (entry : Entry Artifact) (timestamp : Time) (w : World)
        → All IsNoPush (run_entry V options entry timestamp w).1
    unfolding run_entry
    run_entry-IsNoPush entry timestamp w =
        (Emits-run_artifacts entry timestamp entry.artifacts).at w
