-- ===== src/Medius/Push/Nothing.antt =====
-- When the push of an entry finds nothing to do.
use containerdisks.Base.{
  codes, ◌≡◌, ◌≢◌, ◌∙◌, refl, ap, sym, subst, Bool, true, false, not, ◌&&◌, List, [], ◌∷◌, ◌++◌,
  Text, Option, none, some, text_beq_iff, ◌⊎◌, inl, inr, arith,
}
use containerdisks.Go.Path.{path_join}
use containerdisks.Go.Maps.{lookup}
use containerdisks.Build.{label_sha_sum}
use containerdisks.Repository.{
  ImageInfo, is_manifest_unknown_error, is_repository_unknown_error, is_tag_unknown_error,
  is_arch_unknown_error,
}
use containerdisks.Go.Result.{Error, Result, ok, err, message, plain}
use containerdisks.Go.Strconv.{quote}
use containerdisks.Go.Time.{Time}
use containerdisks.Api.{Options, ArtifactDetails, describe}
use containerdisks.Registry.{Entry}
use containerdisks.Effects.{Eff, call, branch, pure, raise, lift}
use containerdisks.Effects.Success.{
  prefix-world, bind-ok, prefix-ok, finally-result, on_error-result, mapped-err, mapped-world,
  ok-injective,
}
use containerdisks.Medius.Env.{Env, Event}
use containerdisks.Medius.Push.{
  handle_metadata_error, missing_checksum, value_or_empty, get_image_checksum, any_changed,
  rebuild_needed, build_and_push, run_artifacts, run_entry,
}

module _ (V : Env) (options : Options) where
  open V use {World, Artifact}

  -- What the registry tells of an image that it does not have.
  abbrev pub IsMissing : Error → Type 0
  IsMissing e =
      (is_repository_unknown_error V.name_unknown e ≡ true)
      ⊎ ((is_manifest_unknown_error V.manifest_unknown e ≡ true)
          ⊎ ((is_tag_unknown_error e ≡ true) ⊎ (is_arch_unknown_error e ≡ true)))

  -- The image is there, with the checksum on its label; or there is no image and no checksum.
  abbrev pub HasChecksum : Text → Result ImageInfo → Type 0
  HasChecksum checksum r =
      ((image : ImageInfo) × (r ≡ ok image)
        × (value_or_empty (lookup label_sha_sum image.labels) ≡ checksum))
      ⊎ ((e : Error) × (r ≡ err e) × IsMissing e × (checksum ≡ []))

  -- What the source registry answers about an image, under the name path.Join gives it there.
  abbrev pub image_of : Text → Text → World → Result ImageInfo × World
  image_of description arch =
      V.image_metadata
        (path_join (options.publish_images_options.source_registry ∷ description ∷ [])) arch
        options.allow_insecure_registry

  -- Artifact by artifact, from a world on: it is inspected, and then the registry is asked.
  abbrev pub AllCurrent : List Artifact → World → Type 0
  AllCurrent [] w = Unit
  AllCurrent (a ∷ artifacts) w =
      (info : ArtifactDetails) × ((V.inspect a w).0 ≡ ok info)
      × HasChecksum info.checksum
          (image_of (describe (V.metadata a)) info.image_architecture (V.inspect a w).1).0
      × AllCurrent artifacts
          (image_of (describe (V.metadata a)) info.image_architecture (V.inspect a w).1).1

  handle_metadata_error-IsMissing :
      (name : Text) (e : Error) → handle_metadata_error V options name e ≡ none → IsMissing e
  unfolding handle_metadata_error
  handle_metadata_error-IsMissing name e = ground arith

  missing_checksum-none :
      (o : Option Error) (v : World) {checksum : Text}
      → ((missing_checksum V options o) v).0 ≡ ok checksum
      → (o ≡ none) × (checksum ≡ []) × (((missing_checksum V options o) v).2 ≡ v)
  unfolding pure raise
  missing_checksum-none none v h = (refl, cc h, refl)
  missing_checksum-none (some e) v h = absurd (cc h)

  labelled :
      (image : ImageInfo) (v : World) {checksum : Text}
      → ((pure {W = World} {E = Event} (value_or_empty (lookup label_sha_sum image.labels))) v).0
        ≡ ok checksum
      → value_or_empty (lookup label_sha_sum image.labels) ≡ checksum
  unfolding pure
  labelled image v h = ok-injective h

  get_image_checksum-HasChecksum :
      (description arch : Text) (v : World) {checksum : Text}
      → ((get_image_checksum V options description arch) v).0 ≡ ok checksum
      → HasChecksum checksum (image_of description arch v).0
        × (((get_image_checksum V options description arch) v).2 ≡ (image_of description arch v).1)
  unfolding get_image_checksum call
  get_image_checksum-HasChecksum description arch v {checksum} h = elim (on_error-result _ _ v h) [
    | inl (k, world) ↦
        let (image, e, k', es) = bind-ok _ _ v k in
        (inl (image, e, labelled image _ k'), world ∙ mapped-world _ _ v)
    | inr (e, k, k', world) ↦
        let (o, c, kept) = missing_checksum-none _ _ k' in
        (
          inr (e, mapped-err _ _ v k, handle_metadata_error-IsMissing _ e o, c),
          world ∙ (kept ∙ mapped-world _ _ v),
        )
  ]

  branch-same :
      (b : Bool) (m : Eff World Event Bool) (w : World)
      → ((branch b m (pure true)) w).0 ≡ ok false
      → (b ≡ true) × ((m w).0 ≡ ok false)
  unfolding branch pure
  branch-same true m w h = (refl, h)
  branch-same false m w h = absurd (cc h)

  current_cons :
      (a : Artifact) (artifacts : List Artifact) (w : World) (info : ArtifactDetails)
      (checksum : Text) (v : World)
      → (V.inspect a w).0 ≡ ok info
      → v ≡ (V.inspect a w).1
      → ((get_image_checksum V options (describe (V.metadata a)) info.image_architecture) v).0
        ≡ ok checksum
      → checksum ≡ info.checksum
      → AllCurrent artifacts
          ((get_image_checksum V options (describe (V.metadata a)) info.image_architecture) v).2
      → AllCurrent (a ∷ artifacts) w
  current_cons a artifacts w info checksum v i at e same rest =
      let (has, world) = get_image_checksum-HasChecksum _ _ v e in
      (
        info,
        i,
        subst
            (λ u.
              HasChecksum info.checksum
                (image_of (describe (V.metadata a)) info.image_architecture u).0)
            at
            (subst
              (λ c. HasChecksum c (image_of (describe (V.metadata a)) info.image_architecture v).0)
              same has),
        subst
            (λ u.
              AllCurrent artifacts (image_of (describe (V.metadata a)) info.image_architecture u).1)
            at (subst (AllCurrent artifacts) world rest),
      )

  any_changed-AllCurrent :
      (artifacts : List Artifact) (w : World)
      → ((any_changed V options artifacts) w).0 ≡ ok false
      → AllCurrent artifacts w
  unfolding any_changed call
  any_changed-AllCurrent [] w h = tt
  any_changed-AllCurrent (a ∷ artifacts) w h =
      let (info, e1, h1, _) = bind-ok _ _ w h in
      let (checksum, e2, h2, _) = bind-ok _ _ _ h1 in
      let (same, h3) = branch-same _ _ _ h2 in
      let i = prefix-ok _ _ w e1 in
      let at =
        prefix-world
          (λ x. plain (
            codes "error introspecting artifact "
            ++ (quote (describe (V.metadata a)) ++ codes ": ")
            ++ message x))
          (call {E = Event} [] (V.inspect a)) w i in
      current_cons a artifacts w info checksum _ i at e2
        ((text_beq_iff checksum info.checksum).0 same) (any_changed-AllCurrent artifacts _ h3)

  rebuild_needed-AllCurrent :
      (artifacts : List Artifact) (w : World)
      → ((rebuild_needed V options artifacts) w).0 ≡ ok false
      → AllCurrent artifacts w
  unfolding rebuild_needed raise
  rebuild_needed-AllCurrent [] w h = tt
  rebuild_needed-AllCurrent (a ∷ artifacts) w h = any_changed-AllCurrent (a ∷ artifacts) w h

  -- A build that succeeds gives tags.
  build_and_push-some :
      (first : Artifact) (entry : Entry Artifact) (timestamp : Time) (info : ArtifactDetails)
      (w : World)
      → ((build_and_push V options first entry timestamp info) w).0 ≢ ok none
  unfolding build_and_push pure
  build_and_push-some first entry timestamp info w h =
      let (_, _, h1, _) = bind-ok _ _ w h in
      let (_, _, h2, _) = bind-ok _ _ _ h1 in
      let (_, _, h3, _) = bind-ok _ _ _ (sym (finally-result _ _ _) ∙ h2) in cc h3

  idle :
      (needed force : Bool) (m : Eff World Event (Option (List Text))) (w : World)
      → ((m w).0 ≢ ok none)
      → ((branch (not needed && not force) (pure none) m) w).0 ≡ ok none
      → (needed ≡ false) × (force ≡ false)
  unfolding branch
  idle true force m w never h = absurd (never h)
  idle false true m w never h = absurd (never h)
  idle false false m w never h = (refl, refl)

  run_artifacts-none :
      (entry : Entry Artifact) (timestamp : Time) (artifacts : List Artifact) (w : World)
      → ((run_artifacts V options entry timestamp artifacts) w).0 ≡ ok none
      → (options.publish_images_options.force_build ≡ false)
        × (first : Artifact) × (others : List Artifact) × (artifacts ≡ first ∷ others)
        × AllCurrent artifacts (V.inspect first w).1
  unfolding run_artifacts lift call
  run_artifacts-none entry timestamp [] w h = absurd (cc h)
  run_artifacts-none entry timestamp (first ∷ others) w h =
      let (info, e1, h1, _) = bind-ok _ _ w h in
      let (needed, e2, h2, _) = bind-ok _ _ _ h1 in
      let (unneeded, unforced) =
        idle needed options.publish_images_options.force_build _ _
          (build_and_push-some first entry timestamp info _) h2 in
      let at =
        prefix-world
          (λ x. plain (
            codes "error introspecting artifact "
            ++ (quote (describe (V.metadata first)) ++ codes ": ")
            ++ message x))
          (call {E = Event} [] (V.inspect first)) w (prefix-ok _ _ w e1) in
      (
        unforced,
        first,
        others,
        refl,
        subst (AllCurrent (first ∷ others)) at
            (rebuild_needed-AllCurrent (first ∷ others) _ (e2 ∙ ap ok unneeded)),
      )

  -- If the push of an entry ends with nothing to do, then no build was forced, there is at least one
  -- artifact, and each one was inspected, one after the other and behind the first inspection of the
  -- first, and then the source registry was asked for its image, under the name that path.Join makes
  -- of the registry and the description and for the architecture of the artifact: either it has the
  -- image, and the checksum on the label is the one that the artifact has at its source; or it says
  -- that there is no such repository, manifest, tag or architecture, and the artifact has an empty
  -- checksum at its source.
  pub run_entry-none :
      (entry : Entry Artifact) (timestamp : Time) (w : World)
      → ((run_entry V options entry timestamp) w).0 ≡ ok none
      → (options.publish_images_options.force_build ≡ false)
        × (first : Artifact) × (others : List Artifact) × (entry.artifacts ≡ first ∷ others)
        × AllCurrent entry.artifacts (V.inspect first w).1
  unfolding run_entry
  run_entry-none entry timestamp w h = run_artifacts-none entry timestamp entry.artifacts w h
