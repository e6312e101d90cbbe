-- ===== src/Api.antt =====
-- pkg/api/artifact.go: what an artifact says of itself, and the parts of an artifact that the
-- commands use. Also cmd/medius/common/options.go and pkg/common/common.go.
use containerdisks.Base.{ℕ, Bool, List, ◌∷◌, ◌++◌, Text, codes}
use containerdisks.Go.Maps.{Map}
use containerdisks.Docs.{UserData}

-- The hash functions that the artifacts name.
pub data ChecksumHash : Type 0 where
  sha256 sha512 : ChecksumHash

pub record ArtifactResult : Type 0 where
  pub tags : List Text
  pub stage : Text
  pub err : Text

pub record ArtifactDetails : Type 0 where
  pub checksum : Text
  pub checksum_hash : ChecksumHash
  pub download_url : Text
  pub image_architecture : Text
  pub compression : Text
  pub additional_unique_tags : List Text

pub record Metadata : Type 0 where
  pub name : Text
  pub version : Text
  pub description : Text
  pub example_user_data : UserData
  pub env_variables : Map Text
  pub arch : Text
  pub is_stable : Bool

unfoldable pub describe : Metadata → Text
describe m = m.name ++ b':' ∷ m.version

-- The functions of pkg/tests that an artifact names for its verification.
pub data ArtifactTest : Type 0 where
  guest_os_info ssh : ArtifactTest

abbrev pub default_instancetype_env : Text
default_instancetype_env = codes "INSTANCETYPE_KUBEVIRT_IO_DEFAULT_INSTANCETYPE"

abbrev pub default_preference_env : Text
default_preference_env = codes "INSTANCETYPE_KUBEVIRT_IO_DEFAULT_PREFERENCE"

-- A Go int: `negsuc n` is -(n + 1).
pub data ℤ : Type 0 where
  pos negsuc : ℕ → ℤ

pub record ImagesOptions : Type 0 where
  pub results_file : Text
  pub workers : ℤ

pub record PromoteImageOptions : Type 0 where
  pub source_registry : Text
  pub target_registry : Text

pub record PublishDocsOptions : Type 0 where
  pub registry : Text
  pub token_file : Text

pub record PublishImageOptions : Type 0 where
  pub force_build : Bool
  pub no_fail : Bool
  pub source_registry : Text
  pub target_registry : Text

pub record VerifyImageOptions : Type 0 where
  pub registry : Text
  pub namespace : Text
  pub no_fail : Bool
  pub timeout : ℕ
  pub target_architecture : Text

pub record Options : Type 0 where
  pub allow_insecure_registry : Bool
  pub dry_run : Bool
  pub focus : Text
  pub images_options : ImagesOptions
  pub publish_docs_options : PublishDocsOptions
  pub publish_images_options : PublishImageOptions
  pub promote_image_options : PromoteImageOptions
  pub verify_images_options : VerifyImageOptions
