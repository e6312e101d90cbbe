-- ===== src/Artifacts/Debian.antt =====
-- artifacts/debian/debian.go. `get_all` is the getter; `unmarshal` is json.Unmarshal at the type
-- BuildData, with nothing for an error.
use containerdisks.Base.{
  Bool, false, ◌||◌, Option, none, some, List, [], ◌∷◌, ◌++◌, Text, codes, ◌==◌, nat_eq, text_eq,
  if◌then◌else◌,
}
use containerdisks.Go.Result.{plain, Result, ok, err, errorf, ◌>>=◌}
use containerdisks.Go.Strings.{has_prefix, trim_prefix}
use containerdisks.Go.Maps.{Map}
use containerdisks.Go.Encoding.{decode, hex_encode}
use containerdisks.Architecture.{get_image_architecture}
use containerdisks.Docs.{
  UserData, VirtualMachine, new_vm, with_rng, with_cloud_init_no_cloud, cloud_init,
}
use containerdisks.Api.{ArtifactDetails, Metadata, sha512, ArtifactTest, ssh}

-- Of an item: the digest annotation, and the labels for the image format and the version.
pub record Item : Type 0 where
  pub digest : Text
  pub image_format : Text
  pub version : Text

pub record Debian : Type 0 where
  pub arch : Text
  pub version : Text
  pub version_name : Text
  pub example_user_data : Option UserData
  pub env_variables : Map Text

abbrev description : Text
description =
    codes
      "Debian Generic Cloud images for KubeVirt.\n<br />\n<br />\nVisit [debian.org](https://cloud.debian.org/images/cloud/) to learn more about Debian project."

abbrev pub valid_debian_version_prefixes : List Text
valid_debian_version_prefixes = codes "11" ∷ codes "12" ∷ codes "13" ∷ []

-- A nil pointer leaves the zero value.
abbrev data_or_zero : Option UserData → UserData
data_or_zero none = record { username = []; authorized_keys = [] }
data_or_zero (some d) = d

unfoldable pub metadata : Debian → Metadata
metadata d = record {
  name = codes "debian";
  version = d.version;
  description = description;
  example_user_data = data_or_zero d.example_user_data;
  env_variables = d.env_variables;
  arch = d.arch;
  is_stable = false;
}

-- The checksum in hexadecimal digits.
unfoldable pub decode_checksum : Text → Result Text
unfolding trim_prefix decode hex_encode
decode_checksum base64_checksum = elim (decode (trim_prefix base64_checksum (codes "sha512:"))) [
  | none ↦ err (plain (codes "error decoding debian digest: illegal base64 data"))
  | some raw_bytes ↦ ok (hex_encode raw_bytes)
]

-- The loop over the items: the first one in the format qcow2 decides.
unfoldable pub find_item : Debian → List Item → Result (List Text × Text)
unfolding decode_checksum
find_item d [] = err (plain (codes "error locating the image information"))
find_item d (item ∷ items) =
    let later = find_item d items in
    let here = (do
      checksum ← decode_checksum item.digest
      ok ((d.version ++ b'-' ∷ item.version) ∷ [], checksum)) in
    if item.image_format == codes "qcow2" then here else later

-- The items of the file that was decoded.
unfoldable pub read_items : Debian → Option (List Item) → Result (List Text × Text)
unfolding find_item
read_items d none = err (plain (codes "error decoding debian json file: <nil>"))
read_items d (some []) = err (plain (codes "build debian data not found"))
read_items d (some (item ∷ items)) = find_item d (item ∷ items)

unfoldable pub get_build_data :
    (Text → Result Text) → (Text → Option (List Item)) → Debian → Text → Result (List Text × Text)
unfolding read_items
get_build_data get_all unmarshal d json_url = do
  raw ← errorf (codes "error downloading debian json file: ") (get_all json_url)
  read_items d (unmarshal raw)

unfoldable pub has_any_prefix : Text → List Text → Bool
unfolding has_prefix
has_any_prefix s [] = false
has_any_prefix s (p ∷ ps) = has_prefix s p || has_any_prefix s ps

unfoldable pub base_url : Debian → Text → Text
base_url d image_arch =
    codes "https://cloud.debian.org/images/cloud/"
    ++ (d.version_name
        ++ (codes "/latest/debian-" ++ (d.version ++ (codes "-genericcloud-" ++ image_arch))))

unfoldable pub inspect :
    (Text → Result Text) → (Text → Option (List Item)) → Debian → Result ArtifactDetails
unfolding has_any_prefix get_build_data base_url
inspect get_all unmarshal d =
    if has_any_prefix d.version valid_debian_version_prefixes
    then (do
      image_arch ← get_image_architecture d.arch
      (tags, checksum) ← get_build_data get_all unmarshal d (base_url d image_arch ++ codes ".json")
      ok (record {
        checksum = checksum;
        checksum_hash = sha512;
        download_url = base_url d image_arch ++ codes ".qcow2";
        image_architecture = image_arch;
        compression = [];
        additional_unique_tags = tags;
      }))
    else err (plain (codes "can't understand provided version " ++ d.version))

unfoldable pub vm : Text → Text → Text → VirtualMachine
unfolding new_vm with_rng with_cloud_init_no_cloud
vm name img_ref user_data = new_vm name img_ref (with_rng ∷ with_cloud_init_no_cloud user_data ∷ [])

unfoldable pub user_data : UserData → Text
unfolding cloud_init
user_data d = cloud_init d

unfoldable pub tests : List ArtifactTest
tests = ssh ∷ []

unfoldable pub new : Text → Text → Text → Option UserData → Map Text → Debian
new version version_name arch example_user_data env_variables = record {
  arch = arch;
  version = version;
  version_name = version_name;
  example_user_data = example_user_data;
  env_variables = env_variables;
}
