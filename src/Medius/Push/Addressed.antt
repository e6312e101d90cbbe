-- ===== src/Medius/Push/Addressed.antt =====
-- The names that push gives to images are those that verify and promote make of the tags.
use containerdisks.Base.{◌≡◌, sym, ap, ◌∙◌, false, some, List, [], ◌∷◌, map, Text, All}
use containerdisks.Go.Result.{ok}
use containerdisks.Go.Path.{path_join}
use containerdisks.Go.Strings.Split.{Lacks}
use containerdisks.Go.Time.{Time}
use containerdisks.Api.{ArtifactDetails, Options}
use containerdisks.Registry.{Entry}
use containerdisks.Medius.Env.{Env}
use containerdisks.Medius.Tags.Joined.{IsPlain, prepare_tags-join}
use containerdisks.Medius.Push.{run_entry}
use containerdisks.Medius.Push.Trace.{pushes}
use containerdisks.Medius.Push.Published.{run_entry-pushes}

module _ (V : Env) (options : Options) where
  open V use {World, Artifact}

  -- If the push of an entry succeeds and gives tags, and it is no dry run, then the names that were
  -- pushed are the tags given, each joined to the target registry by path.Join, as verify and
  -- promote do it with their registry. The names of artifacts are taken to be elements of a path,
  -- and their versions and additional tags to have no slash.
  pub run_entry-addresses :
      options.dry_run ≡ false
      → ((a : Artifact) → IsPlain (V.metadata a))
      → ((a : Artifact) (v : World) (info : ArtifactDetails)
          → (V.inspect a v).0 ≡ ok info
          → All (Lacks b'/') info.additional_unique_tags)
      → (entry : Entry Artifact) (timestamp : Time) (w : World) (tags : List Text)
      → ((run_entry V options entry timestamp) w).0 ≡ ok (some tags)
      → pushes ((run_entry V options entry timestamp) w).1
        ≡ map (λ tag. path_join (options.publish_images_options.target_registry ∷ tag ∷ [])) tags
  run_entry-addresses wet plain clear entry timestamp w tags h =
      let (first, others, info, e, i, pushed, given) =
        run_entry-pushes V options wet entry timestamp w tags h in
      let address =
        λ (tag : Text). path_join (options.publish_images_options.target_registry ∷ tag ∷ []) in
      pushed
      ∙ (prepare_tags-join timestamp (V.metadata first) entry.use_for_latest
            info.additional_unique_tags (plain first) (clear first w info i)
            options.publish_images_options.target_registry
          ∙ ap (map address) (sym given))
