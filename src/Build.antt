-- ===== src/Build.antt =====
-- pkg/build/build.go. The image library is a parameter: `ImageLib` has what the code calls of it.
pub mod Tar
use containerdisks.Base.{List, [], ◌∷◌, ◌++◌, Text, codes, Option, none, some, map}
use containerdisks.Go.Result.{Result, ok, errorf, ◌>>=◌}
use containerdisks.Go.Maps.{Map, lookup, keys}

pub record ImageConfig : Type 0 where
  pub labels : Map Text
  pub env : List Text
  pub entrypoint : List Text

pub record ConfigFile : Type 0 where
  pub architecture : Text
  pub os : Text
  pub config : ImageConfig

-- `layer` is a layer that streams the disk of a path. `with_layer` is the empty image with the
-- media type of a Docker manifest and one layer.
pub record ImageLib : Type 1 where
  pub Layer : Type 0
  pub Image : Type 0
  pub Index : Type 0
  pub Platform : Type 0
  pub Descriptor : Type 0
  pub layer : Text → Result Layer
  pub with_layer : Layer → Result Image
  pub config_file : Image → Result ConfigFile
  pub set_config_file : Image → ConfigFile → Result Image
  pub descriptor : Image → Result Descriptor
  pub platform : ConfigFile → Platform
  pub set_platform : Platform → Descriptor → Descriptor
  pub append_manifests : List (Image × Descriptor) → Index

abbrev pub label_sha_sum : Text
label_sha_sum = codes "shasum"

abbrev pub image_os : Text
image_os = codes "linux"

abbrev or_empty : Option Text → Text
or_empty none = []
or_empty (some v) = v

-- `key_order` is the order in which a `range` visits the keys of a map.
unfoldable pub container_disk_config : (List Text → List Text) → Text → Map Text → ImageConfig
unfolding lookup keys
container_disk_config key_order checksum env_variables = record {
  labels = (label_sha_sum, checksum) ∷ [];
  env = map (λ k. k ++ b'=' ∷ or_empty (lookup k env_variables)) (key_order (keys env_variables));
  entrypoint = codes "no-entrypoint" ∷ [];
}

module _ (L : ImageLib) where
  open L use {
    Image, Index, Descriptor, layer, with_layer, config_file, set_config_file, descriptor, platform,
    set_platform, append_manifests,
  }

  unfoldable pub container_disk : Text → Text → ImageConfig → Result Image
  container_disk img_path img_arch config = do
    disk ← errorf (codes "error creating an image layer from disk: ") (layer img_path)
    img ← errorf (codes "error appending the image layer: ") (with_layer disk)
    cf ← errorf (codes "error getting the image config file: ") (config_file img)
    errorf (codes "error setting the image config file: ") (
        set_config_file img (record cf { architecture = img_arch; os = image_os; config = config }))

  -- The loop over the images.
  unfoldable pub index_addendum : List Image → Result (List (Image × Descriptor))
  index_addendum [] = ok []
  index_addendum (image ∷ images) = do
    cf ← config_file image
    d ← descriptor image
    rest ← index_addendum images
    ok ((image, set_platform (platform cf) d) ∷ rest)

  unfoldable pub container_disk_index : List Image → Result Index
  unfolding index_addendum
  container_disk_index images = do addendum ← index_addendum images; ok (append_manifests addendum)
