-- ===== src/Medius/Promote/Copies.antt =====
-- What the promotion of an entry copies.
use containerdisks.Base.{
  ◌≡◌, refl, ◌∙◌, Bool, true, false, Option, none, some, List, [], ◌∷◌, map, append-nil, Text,
  text_beq_iff,
}
use containerdisks.Go.Result.{Result, ok, err, panic}
use containerdisks.Go.Maps.{Map, lookup}
use containerdisks.Api.{ArtifactResult, Metadata, Options, describe}
use containerdisks.Effects.{branch, pure, raise, call, ◌>>=◌}
use containerdisks.Effects.Success.{bind-ok, branch_then, on_error-ok}
use containerdisks.Medius.Workers.{stage_verify}
use containerdisks.Medius.Promote.{
  Registries, Copy, check_canceled, copy, copy_all, promote_artifact, promote_verified,
  promote_result, promote_entry, promoted, source_of, target_of,
}

module _ (R : Registries) (options : Options) where
  open R use {World}

  check_canceled-silent : (w : World) → ((check_canceled R options) w).1 ≡ []
  unfolding check_canceled ◌>>=◌ branch call pure raise
  check_canceled-silent w = go (R.canceled w).0 refl
    where
      go : (r : Result Bool) → (R.canceled w).0 ≡ r → ((check_canceled R options) w).1 ≡ []
      go (ok true) e = rw e refl
      go (ok false) e = rw e refl
      go (err x) e = rw e refl
      go (panic m) e = rw e refl

  -- The copies that a promotion of tags consists of.
  abbrev pub copies_of : Text → List Text → List Copy
  copies_of source tags =
      map (λ tag. record { source = source; target = target_of R options tag }) tags

  module _ (wet : options.dry_run ≡ false) where
    copy-event :
        (source target : Text) (w : World)
        → ((copy R options source target) w).1 ≡ record { source = source; target = target } ∷ []
    unfolding copy
    copy-event source target w = rw wet (unfold branch call in refl)

    copy_all-copies :
        (source : Text) (tags : List Text) (w : World) {u : Unit {0}}
        → ((copy_all R options source tags) w).0 ≡ ok u
        → ((copy_all R options source tags) w).1 ≡ copies_of source tags
    unfolding copy_all pure
    copy_all-copies source [] w h = refl
    copy_all-copies source (tag ∷ tags) w h =
        let (_, _, h1, es1) = bind-ok _ _ w h in
        let (_, _, h2, es2) = bind-ok _ _ _ h1 in
        es1
        ∙ rw
            (
              copy-event source (target_of R options tag) w,
              es2,
              check_canceled-silent _,
              copy_all-copies source tags _ h2,
            )
            refl

    promote_artifact-copies :
        (tags : List Text) (w : World) {u : Unit {0}}
        → ((promote_artifact R options tags) w).0 ≡ ok u
        → (tag : Text) × (rest : List Text) × (tags ≡ tag ∷ rest)
          × (((promote_artifact R options tags) w).1 ≡ copies_of (source_of R options tag) tags)
    unfolding promote_artifact raise
    promote_artifact-copies [] w h = absurd (cc h)
    promote_artifact-copies (tag ∷ rest) w h =
        (tag, rest, refl, copy_all-copies (source_of R options tag) (tag ∷ rest) w h)

    promote_verified-copies :
        (tags : List Text) (w : World) (r : ArtifactResult)
        → ((promote_verified R options tags) w).0 ≡ ok (some r, none)
        → (tag : Text) × (rest : List Text) × (tags ≡ tag ∷ rest)
          × (((promote_verified R options tags) w).1 ≡ copies_of (source_of R options tag) tags)
          × (r ≡ promoted R options tags [])
    unfolding promote_verified pure
    promote_verified-copies tags w r h =
        let (e, es) = on_error-ok _ _ w (λ x v k. cc k) h in
        let (_, e1, h1, es1) = bind-ok _ _ w e in
        let (tag, rest, ts, cs) = promote_artifact-copies tags w e1 in
        (tag, rest, ts, es ∙ (es1 ∙ (append-nil _ ∙ cs)), cc h1)

    promote_result-copies :
        (description : Text) (found : Option ArtifactResult) (w : World) (r : ArtifactResult)
        → ((promote_result R options description found) w).0 ≡ ok (some r, none)
        → (v : ArtifactResult) × (tag : Text) × (rest : List Text) × (found ≡ some v)
          × (v.stage ≡ stage_verify)
          × (v.err ≡ [])
          × (v.tags ≡ tag ∷ rest)
          × (((promote_result R options description found) w).1
              ≡ copies_of (source_of R options tag) v.tags)
          × (r ≡ promoted R options v.tags [])
    unfolding promote_result pure
    promote_result-copies description none w r h = absurd (cc h)
    promote_result-copies description (some v) w r h =
        let (e, k, ev) = branch_then _ _ _ w h (λ k. cc k) in
        let (s, k', ev') = branch_then _ _ _ w k (λ k. cc k) in
        let (tag, rest, ts, cs, same) = promote_verified-copies v.tags w r k' in
        (
          v,
          tag,
          rest,
          refl,
          (text_beq_iff v.stage stage_verify).0 s,
          (text_beq_iff v.err []).0 e,
          ts,
          ev ∙ (ev' ∙ cs),
          same,
        )

    -- If the promotion of an entry ends with a result and no error, and it is no dry run, then the
    -- results file held a result of the verification for the entry, with no error and at least one
    -- tag; the image of the first tag was copied to the tags in the target registry, each once and
    -- in their order; and the result has these tags, the stage of the promotion and no error.
    pub promote_entry-copies :
        (results : Map ArtifactResult) (metadata : Metadata) (w : World) (r : ArtifactResult)
        → ((promote_entry R options results metadata) w).0 ≡ ok (some r, none)
        → (v : ArtifactResult) × (tag : Text) × (rest : List Text) × (lookup
              (describe metadata)
              results
            ≡ some v)
          × (v.stage ≡ stage_verify)
          × (v.err ≡ [])
          × (v.tags ≡ tag ∷ rest)
          × (((promote_entry R options results metadata) w).1
              ≡ copies_of (source_of R options tag) v.tags)
          × (r ≡ promoted R options v.tags [])
    unfolding promote_entry
    promote_entry-copies results metadata w r h =
        promote_result-copies (describe metadata) (lookup (describe metadata) results) w r h
