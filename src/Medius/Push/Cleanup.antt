-- ===== src/Medius/Push/Cleanup.antt =====
-- The temporary files of a successful push.
use containerdisks.Base.{◌≡◌, ◌≢◌, ◌∙◌, refl, ap, sym, List, [], ◌∷◌, ◌++◌, Text, Option, inl, inr}
use containerdisks.Go.Result.{Result, ok, err, panic}
use containerdisks.Go.Time.{Time}
use containerdisks.Api.{Options, ArtifactDetails}
use containerdisks.Registry.{Entry}
use containerdisks.Effects.{Eff, call, call_ok, on_ok, pure, lift, on_error, ◌>>=◌}
use containerdisks.Effects.Success.{bind-ok, ok-injective, branch-ok, finally-result}
use containerdisks.Effects.Emits.{
  Emits, emits_rules, Emits-bind, Emits-call, Emits-lift, Emits-pure, Emits-finally,
}
use containerdisks.Medius.Env.{Env, Event, created}
use containerdisks.Medius.Push.Parts
use containerdisks.Medius.Push.Trace.{
  creations-append, removals-append, creations, removals, creation_view, removal_view, IsNoCreation,
  IsNoRemoval,
}
use containerdisks.Medius.Push.Quiet.{
  quiet, bind_quiet, quiet_bind, bind_both, finally_quiet, quiet_finally,
}
use containerdisks.Medius.Push.{
  read_artifact, get_artifact, build_images, cleanup_artifacts, build_and_push, run_artifacts,
  run_entry,
}

module _ (V : Env) (options : Options) where
  open V use {World, Artifact, Reader}

  call_ok-creations :
      (f : World → Result Text × World) (w : World) {file : Text}
      → ((call_ok created f) w).0 ≡ ok file
      → creations ((call_ok created f) w).1 ≡ file ∷ []
  unfolding call_ok
  call_ok-creations f w h = ap (λ r. creations (on_ok created r)) h

  read_artifact-creations :
      (reader : Reader) (compression : Text) (w : World) {file : Text}
      → ((read_artifact V options reader compression) w).0 ≡ ok file
      → creations ((read_artifact V options reader compression) w).1 ≡ file ∷ []
  unfolding read_artifact pure call_ok
  read_artifact-creations reader compression w h =
      let (stream, _, h1, es1) =
        bind_quiet creation_view _ _ w
          (Parts.Emits-open_stream V options IsNoCreation reader compression) h in
      let (file', e2, h2, es2) =
        quiet_bind creation_view _ _ _
          (λ f. search (emits_rules, Parts.Emits-copy_chunks V options IsNoCreation)) h1 in
      let (_, _, h3, _) = bind-ok _ _ _ h2 in
      es1 ∙ (es2 ∙ (call_ok-creations V.create_temp _ e2 ∙ ap (λ f. f ∷ []) (ok-injective h3)))

  get_artifact-creations :
      (info : ArtifactDetails) (w : World) {file : Text} {checked : ArtifactDetails}
      → ((get_artifact V options info) w).0 ≡ ok (file, checked)
      → creations ((get_artifact V options info) w).1 ≡ file ∷ []
  unfolding get_artifact pure
  get_artifact-creations info w h =
      let (reader, _, h1, es1) =
        bind_quiet creation_view _ _ w
          (Parts.Emits-get_artifact_reader V options IsNoCreation (λ u. tt) info) h in
      let (file', e2, h2, es2) =
        quiet_bind creation_view _ _ _
          (λ f. Emits-bind _ _ (Parts.Emits-check_canceled V options IsNoCreation) λ _.
            Emits-bind _ _ (Emits-call _ _ tt) λ c. Emits-bind _ _ (Emits-lift _) λ d. Emits-pure _)
          (sym (finally-result _ _ _) ∙ h1) in
      let (_, _, h3, _) = bind-ok _ _ _ h2 in
      let (_, _, h4, _) = bind-ok _ _ _ h3 in
      let (_, _, h5, _) = bind-ok _ _ _ h4 in
      es1
      ∙ (finally_quiet creation_view _ _ _ (search emits_rules)
          ∙ (es2
              ∙ (read_artifact-creations reader info.compression _ e2
                  ∙ ap (λ p. p.0 ∷ []) (ok-injective h5))))

  build_images-creations :
      (artifacts : List Artifact) (w : World) {built : List V.images.Image} {files : List Text}
      → ((build_images V options artifacts) w).0 ≡ ok (built, files)
      → creations ((build_images V options artifacts) w).1 ≡ files
  unfolding build_images pure
  build_images-creations [] w h = ap (λ p. p.1) (ok-injective h)
  build_images-creations (a ∷ artifacts) w h =
      let (info, _, h1, es1) = bind_quiet creation_view _ _ w (search emits_rules) h in
      let (file, e2, h2, es2) = bind_both creation_view _ _ _ h1 in
      let (image, _, h3, es3) = bind_quiet creation_view _ _ _ (search emits_rules) h2 in
      let (_, _, h4, es4) =
        bind_quiet creation_view _ _ _ (Parts.Emits-check_canceled V options IsNoCreation) h3 in
      let (rest, e5, h5, es5) = quiet_bind creation_view _ _ _ (λ r. search emits_rules) h4 in
      es1
      ∙ (es2
          ∙ rw
              (
                get_artifact-creations info _ e2,
                es3 ∙ (es4 ∙ (es5 ∙ build_images-creations artifacts _ e5)),
              )
              (ap (λ p. p.1) (ok-injective h5)))

  -- Removing a file reports an error at most, as `os.Remove` does.
  module _ (removes : (file : Text) (w : World) (m : Text) → (V.remove file w).0 ≢ panic m) where
    cleanup_artifacts-removals :
        (files : List Text) (w : World) → removals ((cleanup_artifacts V options files) w).1 ≡ files
    unfolding cleanup_artifacts ◌>>=◌ on_error call pure
    cleanup_artifacts-removals [] w = refl
    cleanup_artifacts-removals (file ∷ files) w =
        go (λ w'. cleanup_artifacts-removals files w') (V.remove file w).0 refl
      where
        go :
            ((w' : World) → removals ((cleanup_artifacts V options files) w').1 ≡ files)
            → (r : Result (Unit {0})) → (V.remove file w).0 ≡ r
            → removals ((cleanup_artifacts V options (file ∷ files)) w).1 ≡ file ∷ files
        go rest (ok u) e = rw e (ap (λ fs. file ∷ fs) (rest _))
        go rest (err x) e = rw e (ap (λ fs. file ∷ fs) (rest _))
        go rest (panic m) e = absurd (removes file w m e)

    build_and_push-removals :
        (first : Artifact) (entry : Entry Artifact) (timestamp : Time) (info : ArtifactDetails)
        (w : World) {tags : Option (List Text)}
        → ((build_and_push V options first entry timestamp info) w).0 ≡ ok tags
        → removals ((build_and_push V options first entry timestamp info) w).1
          ≡ creations ((build_and_push V options first entry timestamp info) w).1
    unfolding build_and_push
    build_and_push-removals first entry timestamp info w h =
        let (_, _, h1, cs1) =
          bind_quiet creation_view _ _ w (Parts.Emits-check_canceled V options IsNoCreation) h in
        let (built, e2, h2, cs2) =
          quiet_bind creation_view _ _ _
            (λ b.
              Emits-finally _ _
                (Emits-bind _ _
                  (Parts.Emits-publish_all V options IsNoCreation (λ n. tt) (λ n. tt) _ _)
                  λ _. Emits-pure _)
                (Parts.Emits-cleanup_artifacts V options IsNoCreation (λ f. tt) _))
            h1 in
        let (_, _, k1, rs1) =
          bind_quiet removal_view _ _ w (Parts.Emits-check_canceled V options IsNoRemoval) h in
        let (built', e2', k2, rs2) =
          bind_quiet removal_view _ _ _
            (Parts.Emits-build_images V options IsNoRemoval (λ u. tt) (λ f. tt) entry.artifacts)
            k1 in
        rs1
        ∙ (rs2
            ∙ (quiet_finally removal_view _ _ _ (
                  Emits-bind _ _
                    (Parts.Emits-publish_all V options IsNoRemoval (λ n. tt) (λ n. tt) _ _)
                    λ _. Emits-pure _)
                ∙ (cleanup_artifacts-removals built'.1 _
                    ∙ (ap (λ p. p.1) (ok-injective (sym e2' ∙ e2))
                        ∙ sym (cs1 ∙ (cs2 ∙ build_images-creations entry.artifacts _ e2))))))

    -- An action before that neither creates nor removes a file keeps the balance of the rest.
    balanced_bind :
        {A B : Type 0} (m : Eff World Event A) (f : A → Eff World Event B) (w : World) {b : B}
        → Emits IsNoCreation m
        → Emits IsNoRemoval m
        → ((m >>= f) w).0 ≡ ok b
        → (a : A) × ((f a (m w).2).0 ≡ ok b)
          × (removals (f a (m w).2).1 ≡ creations (f a (m w).2).1
              → removals ((m >>= f) w).1 ≡ creations ((m >>= f) w).1)
    balanced_bind m f w hc hr h =
        let (a, _, k, es) = bind-ok m f w h in
        (
          a,
          k,
          λ same.
              ap removals es
              ∙ (removals-append (m w).1 _
                  ∙ (ap (λ ns. ns ++ removals (f a (m w).2).1) (quiet removal_view m w hr)
                      ∙ (same
                          ∙ sym (
                              ap creations es
                              ∙ (creations-append (m w).1 _
                                  ∙ ap (λ ns. ns ++ creations (f a (m w).2).1)
                                      (quiet creation_view m w hc)))))),
        )

    run_artifacts-removals :
        (entry : Entry Artifact) (timestamp : Time) (artifacts : List Artifact) (w : World)
        {result : Option (List Text)}
        → ((run_artifacts V options entry timestamp artifacts) w).0 ≡ ok result
        → removals ((run_artifacts V options entry timestamp artifacts) w).1
          ≡ creations ((run_artifacts V options entry timestamp artifacts) w).1
    unfolding run_artifacts lift pure
    run_artifacts-removals entry timestamp [] w h = absurd (cc h)
    run_artifacts-removals entry timestamp (first ∷ others) w h =
        let (info, h1, from1) = balanced_bind _ _ w (search emits_rules) (search emits_rules) h in
        let (needed, h2, from2) =
          balanced_bind _ _ _ (Parts.Emits-rebuild_needed V options IsNoCreation (first ∷ others))
            (Parts.Emits-rebuild_needed V options IsNoRemoval (first ∷ others)) h1 in
        from1 (
          from2 (elim (branch-ok _ _ _ _ h2) [
            | inl (b, k) ↦ ap removals b ∙ sym (ap creations b)
            | inr (b, k) ↦
                ap removals b
                ∙ (build_and_push-removals first entry timestamp info _ k ∙ sym (ap creations b))
          ]))

    -- If the push of an entry succeeds, with tags or with nothing to do, then the temporary files
    -- that it removed are those that it created, each once and in their order. Removing a file
    -- is taken to report an error at most.
    pub run_entry-removals :
        (entry : Entry Artifact) (timestamp : Time) (w : World) (result : Option (List Text))
        → ((run_entry V options entry timestamp) w).0 ≡ ok result
        → removals ((run_entry V options entry timestamp) w).1
          ≡ creations ((run_entry V options entry timestamp) w).1
    unfolding run_entry
    run_entry-removals entry timestamp w result h =
        run_artifacts-removals entry timestamp entry.artifacts w h
