-- ===== src/Medius/Push.antt =====
-- cmd/medius/images/push.go: the push of one entry, `buildAndPublish`. The logger is left out.
pub mod Job
pub mod Parts
pub mod DryRun
pub mod Trace
pub mod Quiet
pub mod Published
pub mod Addressed
pub mod Cleanup
pub mod Retries
pub mod Nothing
pub mod Checked
use containerdisks.Base.{
  ℕ, zero, suc, Bool, true, false, not, ◌&&◌, Option, none, some, List, [], ◌∷◌, ◌++◌, Text, codes,
  ◌==◌, text_eq, text_beq, if◌then◌else◌,
}
use containerdisks.Go.Result.{Error, plain, canceled, message, Result, ok, err, panic}
use containerdisks.Go.Path.{path_join}
use containerdisks.Go.Strconv.{quote}
use containerdisks.Go.Time.{Time}
use containerdisks.Go.Maps.{lookup}
use containerdisks.Api.{ArtifactDetails, Options, describe}
use containerdisks.Build.{
  label_sha_sum, container_disk, container_disk_config, container_disk_index,
}
use containerdisks.Registry.{Entry}
use containerdisks.Repository.{
  is_manifest_unknown_error, is_repository_unknown_error, is_tag_unknown_error,
  is_arch_unknown_error,
}
use containerdisks.Effects.{
  branch, Eff, pure, raise, lift, call, call_ok, finally, on_error, ◌>>=◌, ◌>>◌,
}
use containerdisks.Medius.Env.{
  Env, Event, Chunk, full, broken, created, removed, pushed, pushed_index, requested,
}
use containerdisks.Medius.Tags.{prepare_tags}

abbrev value_or_empty : Option Text → Text
value_or_empty none = []
value_or_empty (some v) = v

-- The loop over the artifacts of an entry needs no more of the environment than its section.
module _ (V : Env) (options : Options) where
  open V use {World, Artifact, Reader, Stream, images, key_order}

  abbrev pub M : Type 0 → Type 0
  M A = Eff World Event A

  -- `fmt.Errorf("…: %v", err)` around a call.
  abbrev pub with_prefix : {A : Type 0} → Text → M A → M A
  with_prefix p m = on_error (λ e. raise (plain (p ++ message e))) m

  -- `if errors.Is(b.Ctx.Err(), context.Canceled) { return …, b.Ctx.Err() }`
  unfoldable pub check_canceled : M (Unit {0})
  check_canceled = do stop ← call [] V.canceled; branch stop (raise canceled) (pure tt)

  -- What is known not to exist yet is no error.
  unfoldable pub handle_metadata_error : Text → Error → Option Error
  handle_metadata_error image_name e =
      if is_repository_unknown_error V.name_unknown e
      then none
      else if is_manifest_unknown_error V.manifest_unknown e
      then none
      else if is_tag_unknown_error e
      then none
      else if is_arch_unknown_error e
      then none
      else some (
          plain
            (codes "error introspecting image " ++ (quote image_name ++ (codes ": " ++ message e))))

  -- With no image there is no checksum.
  abbrev missing_checksum : Option Error → M Text
  missing_checksum none = pure []
  missing_checksum (some e) = raise e

  unfoldable pub get_image_checksum : Text → Text → M Text
  get_image_checksum description arch =
      let image_name =
        path_join (options.publish_images_options.source_registry ∷ description ∷ []) in
      on_error (λ e. missing_checksum (handle_metadata_error image_name e))
        (do
          info ← call [] (V.image_metadata image_name arch options.allow_insecure_registry)
          pure (value_or_empty (lookup label_sha_sum info.labels)))

  -- The loop over the artifacts: the first one that changed decides.
  unfoldable pub any_changed : List Artifact → M Bool
  any_changed [] = pure false
  any_changed (a ∷ artifacts) = do
    info ←
        with_prefix
          (codes "error introspecting artifact " ++ (quote (describe (V.metadata a)) ++ codes ": "))
          (call [] (V.inspect a))
    image_checksum ← get_image_checksum (describe (V.metadata a)) info.image_architecture
    branch (image_checksum == info.checksum) (any_changed artifacts) (pure true)

  unfoldable pub rebuild_needed : List Artifact → M Bool
  rebuild_needed [] = raise (plain (codes "entry has no artifacts to check for rebuild"))
  rebuild_needed (a ∷ artifacts) = any_changed (a ∷ artifacts)

  -- The rounds left, and the last error.
  unfoldable pub attempt : ℕ → Text → Error → (World → Result Reader × World) → M Reader
  attempt zero url last get = raise (
      plain
        (codes "error opening a connection to the specified download location: " ++ message last))
  attempt (suc n) url last get = do
    call (requested url ∷ []) (λ w. (ok tt, w))
    on_error (λ e. attempt n url e get) (call [] get)

  abbrev pub retries : ℕ
  retries = 3

  -- Before the first round the error is nil.
  unfoldable pub get_artifact_reader : ArtifactDetails → M Reader
  get_artifact_reader info =
      attempt retries info.download_url (plain (codes "<nil>"))
        (V.get_with_checksum info.download_url info.checksum_hash)

  -- The loop over the chunks; the stream ends behind the last one.
  unfoldable pub copy_chunks : List Chunk → M (Unit {0})
  copy_chunks [] = pure tt
  copy_chunks (full ∷ rest) = do check_canceled; copy_chunks rest
  copy_chunks (broken e ∷ rest) =
      raise (plain (codes "error writing the image to the destination file: " ++ message e))

  -- Any compression but two names is read as it comes.
  unfoldable pub open_stream : Reader → Text → M Stream
  unfolding text_beq
  open_stream reader compression =
      branch (compression == codes "gzip")
        (with_prefix (codes "error creating a gunzip reader for the specified download location: ")
          (call [] (V.gzip_stream reader)))
        (branch (compression == codes "xz")
          (with_prefix (codes "error creating a lzma reader for the specified download location: ")
            (call [] (V.xz_stream reader)))
          (pure (V.plain_stream reader)))

  unfoldable pub read_artifact : Reader → Text → M Text
  read_artifact reader compression = do
    stream ← open_stream reader compression
    file ← call_ok created V.create_temp
    copy_chunks (V.chunks stream)
    pure file

  -- An empty upstream checksum is filled in; any other has to be the one that was computed.
  unfoldable pub verify_checksum : ArtifactDetails → Text → Result ArtifactDetails
  unfolding text_beq
  verify_checksum info checksum =
      if info.checksum == []
      then ok (record info { checksum = checksum })
      else if checksum == info.checksum
      then ok info
      else err (
          plain (
            codes "expected checksum "
            ++ (quote info.checksum ++ (codes " but got " ++ quote checksum))))

  -- The file, and the details with their checksum.
  unfoldable pub get_artifact : ArtifactDetails → M (Text × ArtifactDetails)
  get_artifact info = do
    reader ← get_artifact_reader info
    finally
        (do
          file ← read_artifact reader info.compression
          check_canceled
          checksum ← call [] (V.checksum reader)
          checked ← lift (verify_checksum info checksum)
          pure (file, checked))
        (call [] (V.close reader))

  -- The loop over the artifacts. The images and the files so far are lost if a round fails.
  unfoldable pub build_images : List Artifact → M (List images.Image × List Text)
  build_images [] = pure ([], [])
  build_images (a ∷ artifacts) = do
    info ←
        with_prefix
          (codes "error introspecting artifact " ++ (quote (describe (V.metadata a)) ++ codes ": "))
          (call [] (V.inspect a))
    (file, checked) ← get_artifact info
    image ← with_prefix (codes "error creating the containerdisk : ") (
        lift (
          container_disk images file checked.image_architecture
            (container_disk_config key_order checked.checksum (V.metadata a).env_variables)))
    check_canceled
    (rest, files) ← build_images artifacts
    pure (image ∷ rest, file ∷ files)

  unfoldable pub push_image : images.Image → Text → M (Unit {0})
  push_image image name =
      branch options.dry_run (pure tt) (call (pushed name ∷ []) (V.push_image image name))

  unfoldable pub push_image_index : images.Index → Text → M (Unit {0})
  push_image_index index name =
      branch options.dry_run (pure tt)
        (call (pushed_index name ∷ []) (V.push_image_index index name))

  -- One name: an index of several images, or the only one.
  unfoldable pub publish : List images.Image → Text → M (Unit {0})
  publish [] name = pure tt
  publish (image ∷ []) name = push_image image name
  publish (image ∷ next ∷ rest) name = do
    index ←
        with_prefix (codes "error creating the containerdisk index : ")
          (lift (container_disk_index images (image ∷ next ∷ rest)))
    push_image_index index name

  unfoldable pub publish_all : List images.Image → List Text → M (Unit {0})
  publish_all built [] = pure tt
  publish_all built (name ∷ names) = do publish built name; check_canceled; publish_all built names

  -- The error of a removal is ignored.
  unfoldable pub cleanup_artifacts : List Text → M (Unit {0})
  cleanup_artifacts [] = pure tt
  cleanup_artifacts (file ∷ files) = do
    on_error (λ e. pure tt) (call (removed file ∷ []) (V.remove file))
    cleanup_artifacts files

  -- What follows once a rebuild was decided on.
  unfoldable pub build_and_push :
      Artifact → Entry Artifact → Time → ArtifactDetails → M (Option (List Text))
  build_and_push first entry timestamp info = do
    check_canceled
    (built, files) ← build_images entry.artifacts
    finally
        (do
          publish_all built (
              prepare_tags timestamp options.publish_images_options.target_registry
                (V.metadata first) entry.use_for_latest info.additional_unique_tags)
          pure (
              some (
                prepare_tags timestamp [] (V.metadata first) entry.use_for_latest
                  info.additional_unique_tags)))
        (cleanup_artifacts files)

  -- What `Do` does with the artifacts of an entry. With none the first index is out of range.
  unfoldable pub run_artifacts : Entry Artifact → Time → List Artifact → M (Option (List Text))
  run_artifacts entry timestamp [] = lift (panic (codes "index out of range [0] with length 0"))
  run_artifacts entry timestamp (first ∷ others) = do
    info ←
        with_prefix
          (codes "error introspecting artifact "
            ++ (quote (describe (V.metadata first)) ++ codes ": "))
          (call [] (V.inspect first))
    needed ← rebuild_needed (first ∷ others)
    branch (not needed && not options.publish_images_options.force_build) (pure none)
        (build_and_push first entry timestamp info)

  -- `Do`. No tags and no error stand for nothing to do.
  unfoldable pub run_entry : Entry Artifact → Time → M (Option (List Text))
  run_entry entry timestamp = run_artifacts entry timestamp entry.artifacts
