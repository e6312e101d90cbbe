-- ===== src/Medius/Push/Published.antt =====
-- What a successful push of an entry has published.
use containerdisks.Base.{
  ◌≡◌, ◌∙◌, refl, ap, sym, false, List, [], ◌∷◌, Text, Option, some, length, append-nil, inl, inr,
  suc, ℕ,
}
use containerdisks.Go.Result.{ok}
use containerdisks.Go.Time.{Time}
use containerdisks.Api.{Options, ArtifactDetails}
use containerdisks.Registry.{Entry}
use containerdisks.Effects.{branch, call, pure, lift}
use containerdisks.Effects.Success.{bind-ok, ok-injective, prefix-ok, branch-ok, finally-result}
use containerdisks.Effects.Emits.{emits_rules}
use containerdisks.Medius.Env.{Env}
use containerdisks.Medius.Tags.{prepare_tags}
use containerdisks.Medius.Push.Trace.{pushes, push_view}
use containerdisks.Medius.Push.Quiet.{bind_quiet, bind_both, finally_quiet}
use containerdisks.Medius.Push.DryRun.{
  Emits-check_canceled, Emits-rebuild_needed, Emits-build_images, Emits-cleanup_artifacts,
}
use containerdisks.Medius.Push.{
  publish, publish_all, push_image, push_image_index, build_images, build_and_push, run_artifacts,
  run_entry,
}

module _ (V : Env) (options : Options) where
  open V use {World, Artifact}

  -- What the tags are made of.
  abbrev pub tags_for : Text → Artifact → Entry Artifact → Time → ArtifactDetails → List Text
  tags_for registry first entry timestamp info =
      prepare_tags timestamp registry (V.metadata first) entry.use_for_latest
        info.additional_unique_tags

  module _ (wet : options.dry_run ≡ false) where
    publish-pushes :
        (image : V.images.Image) (rest : List V.images.Image) (name : Text) (w : World)
        {u : Unit {0}}
        → ((publish V options (image ∷ rest) name) w).0 ≡ ok u
        → pushes ((publish V options (image ∷ rest) name) w).1 ≡ name ∷ []
    unfolding publish push_image push_image_index
    publish-pushes image [] name w h = rw wet (unfold branch call in refl)
    publish-pushes image (next ∷ rest) name w h =
        let (index, e, h', es) = bind_quiet push_view _ _ w (search emits_rules) h in
        es ∙ rw wet (unfold branch call in refl)

    publish_all-pushes :
        (image : V.images.Image) (rest : List V.images.Image) (names : List Text) (w : World)
        {u : Unit {0}}
        → ((publish_all V options (image ∷ rest) names) w).0 ≡ ok u
        → pushes ((publish_all V options (image ∷ rest) names) w).1 ≡ names
    unfolding publish_all
    publish_all-pushes image rest [] w h = unfold pure in refl
    publish_all-pushes image rest (name ∷ names) w h =
        let (a, e, h', es) = bind_both push_view _ _ w h in
        let (b, e', h'', es') = bind_quiet push_view _ _ _ (Emits-check_canceled V options) h' in
        es
        ∙ rw (publish-pushes image rest name w e, es', publish_all-pushes image rest names _ h'')
            refl

    -- One image for each artifact.
    build_images-length :
        (artifacts : List Artifact) (w : World) {built : List V.images.Image} {files : List Text}
        → ((build_images V options artifacts) w).0 ≡ ok (built, files)
        → length built ≡ length artifacts
    unfolding build_images pure
    build_images-length [] w h = cc
    build_images-length (a ∷ artifacts) w h =
        let (info, _, h1, _) = bind-ok _ _ w h in
        let (file, _, h2, _) = bind-ok _ _ _ h1 in
        let (image, _, h3, _) = bind-ok _ _ _ h2 in
        let (u, _, h4, _) = bind-ok _ _ _ h3 in
        let (rest, e, h5, _) = bind-ok _ _ _ h4 in
        sym (ap (λ p. length p.0) (ok-injective h5)) ∙ ap suc (build_images-length artifacts _ e)

    publish_built :
        (built : List V.images.Image) (n : ℕ) (names : List Text) (w : World) {u : Unit {0}}
        → length built ≡ suc n
        → ((publish_all V options built names) w).0 ≡ ok u
        → pushes ((publish_all V options built names) w).1 ≡ names
    publish_built [] n names w l h = absurd (cc l)
    publish_built (image ∷ rest) n names w l h = publish_all-pushes image rest names w h

    build_and_push-pushes :
        (first : Artifact) (entry : Entry Artifact) (timestamp : Time) (info : ArtifactDetails)
        (n : ℕ) (w : World) {tags : Option (List Text)}
        → length entry.artifacts ≡ suc n
        → ((build_and_push V options first entry timestamp info) w).0 ≡ ok tags
        → (pushes ((build_and_push V options first entry timestamp info) w).1
            ≡ tags_for options.publish_images_options.target_registry first entry timestamp info)
          × (tags ≡ some (tags_for [] first entry timestamp info))
    unfolding build_and_push pure
    build_and_push-pushes first entry timestamp info n w {tags} l h =
        let (u, _, h1, es1) = bind_quiet push_view _ _ w (Emits-check_canceled V options) h in
        let (built, e2, h2, es2) =
          bind_quiet push_view _ _ _ (Emits-build_images V options entry.artifacts) h1 in
        let (v, e3, h3, es3) = bind_both push_view _ _ _ (sym (finally-result _ _ _) ∙ h2) in
        (
          es1
              ∙ (es2
                  ∙ (finally_quiet push_view _ _ _ (Emits-cleanup_artifacts V options built.1)
                      ∙ (es3
                          ∙ rw
                              (publish_built built.0 n _ _
                                (build_images-length entry.artifacts _ e2 ∙ l) e3)
                              (append-nil _)))),
          sym (ok-injective h3),
        )

    run_artifacts-pushes :
        (entry : Entry Artifact) (timestamp : Time) (artifacts : List Artifact) (w : World)
        {tags : List Text}
        → length entry.artifacts ≡ length artifacts
        → ((run_artifacts V options entry timestamp artifacts) w).0 ≡ ok (some tags)
        → (first : Artifact) × (others : List Artifact) × (info : ArtifactDetails) × (artifacts
            ≡ first ∷ others)
          × ((V.inspect first w).0 ≡ ok info)
          × (pushes ((run_artifacts V options entry timestamp artifacts) w).1
              ≡ tags_for options.publish_images_options.target_registry first entry timestamp info)
          × (tags ≡ tags_for [] first entry timestamp info)
    unfolding run_artifacts lift call pure
    run_artifacts-pushes entry timestamp [] w l h = absurd (cc h)
    run_artifacts-pushes entry timestamp (first ∷ others) w l h =
        let (info, e1, h1, es1) = bind_quiet push_view _ _ w (search emits_rules) h in
        let (needed, e2, h2, es2) =
          bind_quiet push_view _ _ _ (Emits-rebuild_needed V options (first ∷ others)) h1 in
        elim (branch-ok _ _ _ _ h2) [
          | inl (b, k) ↦ absurd (cc k)
          | inr (b, k) ↦
              let (ps, ts) =
                build_and_push-pushes first entry timestamp info (length others) _ l k in
              (
                first,
                others,
                info,
                refl,
                prefix-ok _ _ w e1,
                es1 ∙ (es2 ∙ (ap pushes b ∙ ps)),
                cc ts,
              )
        ]

    -- If the push of an entry succeeds and gives tags, and it is no dry run, then the names that
    -- were pushed are the tags of the entry's first artifact in the target registry, each once
    -- and in their order, and the tags given are those with no registry.
    pub run_entry-pushes :
        (entry : Entry Artifact) (timestamp : Time) (w : World) (tags : List Text)
        → ((run_entry V options entry timestamp) w).0 ≡ ok (some tags)
        → (first : Artifact) × (others : List Artifact) × (info : ArtifactDetails)
          × (entry.artifacts ≡ first ∷ others)
          × ((V.inspect first w).0 ≡ ok info)
          × (pushes ((run_entry V options entry timestamp) w).1
              ≡ tags_for options.publish_images_options.target_registry first entry timestamp info)
          × (tags ≡ tags_for [] first entry timestamp info)
    unfolding run_entry
    run_entry-pushes entry timestamp w tags h =
        run_artifacts-pushes entry timestamp entry.artifacts w refl h
