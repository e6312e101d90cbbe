-- ===== src/Medius/Push/Checked.antt =====
-- What the download of an artifact has checked.
use containerdisks.Base.{
  ℕ, zero, suc, ◌≡◌, ◌∙◌, refl, ap, sym, Bool, true, false, List, [], ◌∷◌, All, Text, ◌⊎◌, inl, inr,
  arith, text_beq_iff,
}
use containerdisks.Go.Result.{Error, Result, ok, err, panic, canceled}
use containerdisks.Api.{Options, ArtifactDetails}
use containerdisks.Effects.{call, pure, lift, raise, branch, continue, ◌>>=◌}
use containerdisks.Effects.Success.{bind-ok, ok-injective, finally-result, on_error-cases}
use containerdisks.Medius.Env.{Env, Event, Chunk, full, broken}
use containerdisks.Medius.Push.{
  check_canceled, attempt, get_artifact_reader, open_stream, copy_chunks, read_artifact,
  verify_checksum, get_artifact,
}

module _ (V : Env) (options : Options) where
  open V use {World, Reader, Stream}

  -- The details with the checksum that was computed, which the source had not, or had the same.
  abbrev pub IsChecked : ArtifactDetails → Text → ArtifactDetails → Type 0
  IsChecked info checksum checked =
      (checked ≡ record info { checksum = checksum })
      × ((info.checksum ≡ []) ⊎ (info.checksum ≡ checksum))

  verify_checksum-IsChecked :
      (info : ArtifactDetails) (checksum : Text) {checked : ArtifactDetails}
      → verify_checksum V options info checksum ≡ ok checked
      → IsChecked info checksum checked
  unfolding verify_checksum
  verify_checksum-IsChecked info checksum h =
      ground (arith, text_beq_iff info.checksum [], text_beq_iff checksum info.checksum)

  -- A whole chunk.
  abbrev pub IsFull : Chunk → Type 0
  IsFull full = Unit
  IsFull (broken e) = ⊥

  -- The reader stems from the address and the hash of the artifact, `file` was read of it: of the
  -- stream that decompresses it all chunks were copied. The context was not canceled then, and `checksum` is the one of the reader in the state that
  -- the reading left.
  pub record IsRead (info : ArtifactDetails) (file checksum : Text) : Type 0 where
    pub reader : Reader
    pub asked : World
    pub given : (V.get_with_checksum info.download_url info.checksum_hash asked).0 ≡ ok reader
    pub before : World
    pub file_read : ((read_artifact V options reader info.compression) before).0 ≡ ok file
    pub stream : Stream
    pub opened : ((open_stream V options reader info.compression) before).0 ≡ ok stream
    pub complete : All IsFull (V.chunks stream)
    pub not_canceled :
        (V.canceled ((read_artifact V options reader info.compression) before).2).0 ≡ ok false
    pub computed :
        (V.checksum reader
          (V.canceled ((read_artifact V options reader info.compression) before).2).1).0
        ≡ ok checksum

  attempt-given :
      (n : ℕ) (url : Text) (last : Error) (get : World → Result Reader × World) (w : World)
      {reader : Reader}
      → ((attempt V options n url last get) w).0 ≡ ok reader
      → (asked : World) × ((get asked).0 ≡ ok reader)
  unfolding attempt call raise
  attempt-given zero url last get w h = absurd (cc h)
  attempt-given (suc n) url last get w h =
      let (u, e, h1, es) = bind-ok _ _ w h in
      elim (on_error-cases (λ e. attempt V options n url e get) (call [] get) _ h1) [
        | inl k ↦ (_, k)
        | inr (e', v, k) ↦ attempt-given n url e' get v k
      ]

  copy_chunks-IsFull :
      (chunks : List Chunk) (w : World)
      → ((copy_chunks V options chunks) w).0 ≡ ok tt
      → All IsFull chunks
  unfolding copy_chunks raise
  copy_chunks-IsFull [] w h = tt
  copy_chunks-IsFull (full ∷ rest) w h =
      let (u, e, h1, es) = bind-ok _ _ w h in (tt, copy_chunks-IsFull rest _ h1)
  copy_chunks-IsFull (broken e ∷ rest) w h = absurd (cc h)

  read_artifact_complete :
      (reader : Reader) (compression : Text) (w : World) {file : Text}
      → ((read_artifact V options reader compression) w).0 ≡ ok file
      → (stream : Stream) × (((open_stream V options reader compression) w).0 ≡ ok stream)
        × All IsFull (V.chunks stream)
  unfolding read_artifact
  read_artifact_complete reader compression w h =
      let (stream, e1, h1, es1) = bind-ok _ _ w h in
      let (file, e2, h2, es2) = bind-ok _ _ _ h1 in
      let (u, e3, h3, es3) = bind-ok _ _ _ h2 in (stream, e1, copy_chunks-IsFull _ _ e3)

  check_canceled-ok :
      (w : World)
      → ((check_canceled V options) w).0 ≡ ok tt
      → ((V.canceled w).0 ≡ ok false) × (((check_canceled V options) w).2 ≡ (V.canceled w).1)
  unfolding check_canceled ◌>>=◌ branch call raise pure
  check_canceled-ok w h = tested (V.canceled w).0 refl h
    where
      tested :
          (r : Result Bool)
          → (V.canceled w).0 ≡ r
          → (continue {E = Event} r
              (λ stop. branch stop (raise canceled) (pure tt))
              (V.canceled w).1).0
            ≡ ok tt
          → ((V.canceled w).0 ≡ ok false) × (((check_canceled V options) w).2 ≡ (V.canceled w).1)
      tested (ok true) q k = absurd (cc k)
      tested (ok false) q k = (q, rw (q, branch) refl)
      tested (err e) q k = absurd (cc k)
      tested (panic m) q k = absurd (cc k)

  -- If the download of an artifact succeeds, then its file was read of a reader that was given for the
  -- artifact's address and hash, every chunk up to the end of the decompressed stream, and the context
  -- was not canceled behind that; the checksum of this reader, in the state that the reading left, is
  -- the one that the artifact has at its source, unless that one is empty; and the details that go
  -- into the image have it.
  pub get_artifact-IsChecked :
      (info : ArtifactDetails) (w : World) (file : Text) (checked : ArtifactDetails)
      → ((get_artifact V options info) w).0 ≡ ok (file, checked)
      → (checksum : Text) × IsRead info file checksum × IsChecked info checksum checked
  unfolding get_artifact get_artifact_reader pure lift call
  get_artifact-IsChecked info w file checked h =
      let (reader, e1, h1, _) = bind-ok _ _ w h in
      let (asked, given) = attempt-given _ _ _ _ w e1 in
      let (file', e2, h2, _) = bind-ok _ _ _ (sym (finally-result _ _ _) ∙ h1) in
      let (_, e3, h3, _) = bind-ok _ _ _ h2 in
      let (checksum, e4, h4, _) = bind-ok _ _ _ h3 in
      let (checked', e5, h5, _) = bind-ok _ _ _ h4 in
      let (stream, opened, complete) = read_artifact_complete reader info.compression _ e2 in
      let (live, world) = check_canceled-ok _ e3 in
      let same = ap (λ (p : Text × ArtifactDetails). p.0) (ok-injective h5) in
      (
        checksum,
        record {
          reader = reader;
          asked = asked;
          given = given;
          before = _;
          file_read = e2 ∙ ap ok same;
          stream = stream;
          opened = opened;
          complete = complete;
          not_canceled = live;
          computed = ap (λ v. (V.checksum reader v).0) (sym world) ∙ e4;
        },
        verify_checksum-IsChecked info checksum
            (e5 ∙ ap (λ (p : Text × ArtifactDetails). ok p.1) (ok-injective h5)),
      )
