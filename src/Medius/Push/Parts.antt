-- ===== src/Medius/Push/Parts.antt =====
-- What holds of the events of each part of the push command, if it holds of the kinds of events
-- that the part makes.
use containerdisks.Base.{ℕ, zero, suc, List, [], ◌∷◌, Text, Option, none, some}
use containerdisks.Go.Result.{Error}
use containerdisks.Api.{Options, ArtifactDetails}
use containerdisks.Go.Result.{Result}
use containerdisks.Effects.Emits.{
  Emits, emits_rules, Emits-branch, Emits-bind, Emits-call, Emits-pure, Emits-on_error,
}
use containerdisks.Medius.Env.{
  Env, Event, Chunk, full, broken, created, removed, pushed, pushed_index, requested,
}
use containerdisks.Medius.Push.{
  check_canceled, missing_checksum, get_image_checksum, any_changed, rebuild_needed, attempt,
  get_artifact_reader, copy_chunks, open_stream, read_artifact, get_artifact, build_images,
  push_image, push_image_index, publish, publish_all, cleanup_artifacts,
}

module _ (V : Env) (options : Options) (P : Event → Type 0) where
  open V use {World, Artifact, Reader}

  pub Emits-check_canceled : Emits P (check_canceled V options)
  unfolding check_canceled
  Emits-check_canceled = search emits_rules

  pub Emits-missing_checksum : (e : Option Error) → Emits P (missing_checksum V options e)
  Emits-missing_checksum none = search emits_rules
  Emits-missing_checksum (some e) = search emits_rules

  pub Emits-get_image_checksum : (d arch : Text) → Emits P (get_image_checksum V options d arch)
  unfolding get_image_checksum
  Emits-get_image_checksum d arch = search (emits_rules, Emits-missing_checksum)

  pub Emits-any_changed : (artifacts : List Artifact) → Emits P (any_changed V options artifacts)
  unfolding any_changed
  Emits-any_changed [] = search emits_rules
  Emits-any_changed (a ∷ artifacts) = Emits-bind _ _ (search emits_rules) λ info.
      Emits-bind _ _ (search (Emits-get_image_checksum))
        λ c. search (emits_rules, Emits-any_changed artifacts)

  pub Emits-rebuild_needed :
      (artifacts : List Artifact) → Emits P (rebuild_needed V options artifacts)
  unfolding rebuild_needed
  Emits-rebuild_needed [] = search emits_rules
  Emits-rebuild_needed (a ∷ artifacts) = Emits-any_changed (a ∷ artifacts)

  pub Emits-copy_chunks : (cs : List Chunk) → Emits P (copy_chunks V options cs)
  unfolding copy_chunks
  Emits-copy_chunks [] = search emits_rules
  Emits-copy_chunks (full ∷ cs) = Emits-bind _ _ Emits-check_canceled λ _. Emits-copy_chunks cs
  Emits-copy_chunks (broken e ∷ cs) = search emits_rules

  pub Emits-open_stream :
      (reader : Reader) (compression : Text) → Emits P (open_stream V options reader compression)
  unfolding open_stream
  Emits-open_stream reader compression = search emits_rules depth 7

  module _ (request : (url : Text) → P (requested url)) where
    pub Emits-attempt :
        (n : ℕ) (url : Text) (last : Error) (get : World → Result Reader × World)
        → Emits P (attempt V options n url last get)
    unfolding attempt
    Emits-attempt zero url last get = search emits_rules
    Emits-attempt (suc n) url last get =
        Emits-bind _ _ (Emits-call _ _ (request url, tt))
          λ _. Emits-on_error _ _ (λ e. Emits-attempt n url e get) (Emits-call _ _ tt)

    pub Emits-get_artifact_reader :
        (info : ArtifactDetails) → Emits P (get_artifact_reader V options info)
    unfolding get_artifact_reader
    Emits-get_artifact_reader info = Emits-attempt _ _ _ _

    module _ (create : (file : Text) → P (created file)) where
      pub Emits-read_artifact :
          (reader : Reader) (compression : Text)
          → Emits P (read_artifact V options reader compression)
      unfolding read_artifact
      Emits-read_artifact reader compression =
          search (emits_rules, Emits-open_stream, Emits-copy_chunks, create) depth 7

      pub Emits-get_artifact : (info : ArtifactDetails) → Emits P (get_artifact V options info)
      unfolding get_artifact
      Emits-get_artifact info =
          search (emits_rules, Emits-get_artifact_reader, Emits-read_artifact, Emits-check_canceled)
            depth 9

      pub Emits-build_images :
          (artifacts : List Artifact) → Emits P (build_images V options artifacts)
      unfolding build_images
      Emits-build_images [] = search emits_rules
      Emits-build_images (a ∷ artifacts) = Emits-bind _ _ (search emits_rules) λ info.
          Emits-bind _ _ (Emits-get_artifact info) λ file.
            Emits-bind _ _ (search emits_rules) λ image.
              Emits-bind _ _ Emits-check_canceled
                λ _. Emits-bind _ _ (Emits-build_images artifacts) λ rest. search emits_rules

  module _ (remove : (file : Text) → P (removed file)) where
    pub Emits-cleanup_artifacts : (files : List Text) → Emits P (cleanup_artifacts V options files)
    unfolding cleanup_artifacts
    Emits-cleanup_artifacts [] = search emits_rules
    Emits-cleanup_artifacts (file ∷ files) =
        Emits-bind _ _ (Emits-on_error _ _ (λ e. Emits-pure tt) (Emits-call _ _ (remove file, tt)))
          λ _. Emits-cleanup_artifacts files

  module _ (push : (name : Text) → P (pushed name))
      (push_index : (name : Text) → P (pushed_index name)) where
    pub Emits-publish :
        (built : List V.images.Image) (name : Text) → Emits P (publish V options built name)
    unfolding publish push_image push_image_index
    Emits-publish [] name = search emits_rules
    Emits-publish (image ∷ []) name =
        Emits-branch _ _ _ (λ _. Emits-pure tt) (λ _. Emits-call _ _ (push name, tt))
    Emits-publish (image ∷ next ∷ rest) name =
        Emits-bind _ _ (search emits_rules) λ index.
          Emits-branch _ _ _ (λ _. Emits-pure tt) (λ _. Emits-call _ _ (push_index name, tt))

    pub Emits-publish_all :
        (built : List V.images.Image) (names : List Text)
        → Emits P (publish_all V options built names)
    unfolding publish_all
    Emits-publish_all built [] = search emits_rules
    Emits-publish_all built (name ∷ names) =
        Emits-bind _ _ (Emits-publish built name)
          λ _. Emits-bind _ _ Emits-check_canceled λ _. Emits-publish_all built names
