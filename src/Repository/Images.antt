-- ===== src/Repository/Images.antt =====
-- pkg/repository/repository.go: the calls of the image libraries, which are parameters. An error of
-- pkg/errors.Wrap prints its message, a colon and the cause, and unwraps to the cause.
pub mod Closed
use containerdisks.Base.{Bool, true, Option, none, some, [], ◌∷◌, ◌++◌, Text, codes, if◌then◌else◌}
use containerdisks.Go.Result.{Error, wrapped, Result, ok, err, panic}
use containerdisks.Effects.{Eff, raise, lift, call, call_ok, on_error, ◌>>=◌, ◌>>◌}
use containerdisks.Repository.{ImageInfo}

-- types.SystemContext, as far as it is filled in; `none` is an undefined OptionalBool.
pub record SystemContext : Type 0 where
  pub oci_insecure_skip_tls_verify : Bool
  pub architecture_choice : Text
  pub os_choice : Text
  pub docker_insecure_skip_tls_verify : Option Bool

-- The libraries. The options of crane are the context and, for a copy, whether it is insecure.
pub record Libraries : Type 1 where
  pub World : Type 0
  pub Name : Type 0
  pub Source : Type 0
  pub Parsed : Type 0
  pub Image : Type 0
  pub Index : Type 0
  pub Reference : Type 0
  pub parse_image_name : Text → Result Name
  pub new_image_source : Name → SystemContext → World → Result Source × World
  pub from_unparsed_image : SystemContext → Source → World → Result Parsed × World
  pub inspect : Parsed → World → Result ImageInfo × World
  pub close : Source → World → Result (Unit {0}) × World
  pub crane_push : Image → Text → World → Result (Unit {0}) × World
  pub parse_reference : Text → Result Reference
  pub write_index : Reference → Index → World → Result (Unit {0}) × World
  pub crane_copy : Text → Text → Bool → World → Result (Unit {0}) × World

-- A source that was opened, or closed.
pub data Event (Source : Type 0) : Type 0 where
  opened closed : Source → Event Source

abbrev pub close_error : Error → Error
close_error e = wrapped (codes "could not close image: ") e

-- The deferred function: an error of the close becomes the error of the call.
abbrev pub override : {A : Type 0} → Result A → Result (Unit {0}) → Result A
override r (ok u) = r
override (panic m) (err e) = panic m
override (ok a) (err e) = err (close_error e)
override (err x) (err e) = err (close_error e)
override r (panic m) = panic m

module _ (L : Libraries) where
  open L use {World, Source, Image, Index}

  abbrev pub M : Type 0 → Type 0
  M A = Eff World (Event Source) A

  -- `name` is a reference with its transport.
  unfoldable pub parse_image_source : SystemContext → Text → M Source
  parse_image_source sys name = do
    ref ← lift (L.parse_image_name name)
    call_ok (λ (src : Source). opened src) (L.new_image_source ref sys)

  unfoldable pub closing : {A : Type 0} → Source → M A → M A
  closing src m w =
      let (r, es, w') = m w in
      let (s, w'') = L.close src w' in (override r s, es ++ closed src ∷ [], w'')

  abbrev pub system_context : Text → Bool → SystemContext
  system_context arch insecure = record {
    oci_insecure_skip_tls_verify = insecure;
    architecture_choice = arch;
    os_choice = codes "linux";
    docker_insecure_skip_tls_verify = if insecure then some true else none;
  }

  -- What is done with the source of an image. The fields of what the library found are copied.
  unfoldable pub inspect_source : SystemContext → Source → M ImageInfo
  inspect_source sys src = do
    img ←
        on_error (λ e. raise (wrapped (codes "Error parsing manifest for image: ") e))
          (call [] (L.from_unparsed_image sys src))
    on_error (λ e. raise (wrapped (codes "Error inspecting image: ") e)) (call [] (L.inspect img))

  unfoldable pub image_metadata : Text → Text → Bool → M ImageInfo
  image_metadata img_ref arch insecure = do
    src ←
        on_error (λ e. raise (wrapped (codes "error parsing image: ") e))
          (parse_image_source (system_context arch insecure) (codes "docker://" ++ img_ref))
    closing src (inspect_source (system_context arch insecure) src)

  unfoldable pub push_image : Image → Text → M (Unit {0})
  push_image img img_ref = call [] (L.crane_push img img_ref)

  -- The reference is parsed before anything is sent.
  unfoldable pub push_image_index : Index → Text → M (Unit {0})
  push_image_index image_index image_ref = do
    ref ← lift (L.parse_reference image_ref)
    call [] (L.write_index ref image_index)

  unfoldable pub copy_image : Text → Text → Bool → M (Unit {0})
  copy_image src_ref dst_ref insecure = call [] (L.crane_copy src_ref dst_ref insecure)
