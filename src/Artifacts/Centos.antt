-- ===== src/Artifacts/Centos.antt =====
-- artifacts/centosstream/centos-stream.go. `get_all` is the getter; `key_order` is the order in
-- which a `range` visits the keys of a map.
use containerdisks.Base.{
  Bool, false, ◌&&◌, ◌||◌, Option, none, some, List, [], ◌∷◌, ◌++◌, Text, codes, if◌then◌else◌,
  select, last_or, text_ltb,
}
use containerdisks.Go.Result.{plain, Result, ok, err, panic, errorf, ◌>>=◌}
use containerdisks.Go.Strings.{has_prefix, has_suffix, trim_prefix, trim_suffix}
use containerdisks.Go.Maps.{Map, lookup, keys}
use containerdisks.Go.Sort.{sort}
use containerdisks.Go.Strconv.{quote}
use containerdisks.Architecture.{get_image_architecture}
use containerdisks.Hashsum.{bsd, parse}
use containerdisks.Docs.{
  UserData, VirtualMachine, new_vm, with_rng, with_cloud_init_no_cloud, cloud_init,
}
use containerdisks.Api.{ArtifactDetails, Metadata, sha256, ArtifactTest, guest_os_info, ssh}

pub record Centos : Type 0 where
  pub version : Text
  pub variant : Text
  pub arch : Text
  pub example_user_data : Option UserData
  pub env_variables : Map Text

abbrev description : Text
description =
    codes
      "<img src=\"https://upload.wikimedia.org/wikipedia/commons/thumb/9/9e/CentOS_Graphical_Symbol.svg/64px-CentOS_Graphical_Symbol.svg.png\" alt=\"drawing\" height=\"15\"/> Centos Stream Generic Cloud images for KubeVirt.\n<br />\n<br />\nVisit [centos.org](https://www.centos.org/) to learn more about the CentOS project.\n<br />\nNote that CentOS Stream 8 is EOL as of [May 31, 2024](https://blog.centos.org/2023/04/end-dates-are-coming-for-centos-stream-8-and-centos-linux-7/) and the associated containerdisks are now deprecated ahead of [removal in the future](https://github.com/kubevirt/containerdisks/issues/152)."

-- A nil pointer leaves the zero value.
abbrev data_or_zero : Option UserData → UserData
data_or_zero none = record { username = []; authorized_keys = [] }
data_or_zero (some d) = d

unfoldable pub metadata : Centos → Metadata
metadata c = record {
  name = codes "centos-stream";
  version = c.version;
  description = description;
  example_user_data = data_or_zero c.example_user_data;
  env_variables = c.env_variables;
  arch = c.arch;
  is_stable = false;
}

-- The directory of the images; a version of another series ends the program.
unfoldable pub base_url : Centos → Result Text
unfolding has_prefix
base_url c =
    if has_prefix c.version (codes "9") || has_prefix c.version (codes "10")
    then ok (
        codes "https://cloud.centos.org/centos/"
        ++ (c.version ++ (codes "-stream/" ++ (c.arch ++ codes "/images/"))))
    else panic (codes "can't understand provided version: " ++ quote c.version)

-- What the name of a candidate begins with.
unfoldable pub name_prefix : Centos → Text
name_prefix c = codes "CentOS-Stream-" ++ (c.variant ++ b'-' ∷ c.version)

unfoldable pub is_candidate : Centos → Text → Bool
unfolding name_prefix has_prefix has_suffix
is_candidate c file_name =
    has_prefix file_name (name_prefix c) && has_suffix file_name (codes "qcow2")

-- The tag that names the build: the file's name with no variant and no ending.
unfoldable pub additional_tag : Centos → Text → Text
unfolding trim_suffix trim_prefix
additional_tag c candidate =
    trim_suffix (trim_prefix candidate (codes "CentOS-Stream-" ++ c.variant ++ codes "-"))
      (codes "." ++ c.arch ++ codes ".qcow2")

-- The details for the checksum of the chosen candidate.
found : Centos → Text → Text → Option Text → Result ArtifactDetails
unfolding additional_tag
found c url candidate none = err (
    plain
      (codes "file " ++ quote c.variant ++ codes " does not exist in the sha256sum file: <nil>"))
found c url candidate (some checksum) = do
  image_arch ← get_image_architecture c.arch
  ok (record {
    checksum = checksum;
    checksum_hash = sha256;
    download_url = url ++ candidate;
    image_architecture = image_arch;
    compression = [];
    additional_unique_tags = additional_tag c candidate ∷ [];
  })

-- The last of the sorted candidates.
unfoldable pub choose : Centos → Text → Map Text → List Text → Result ArtifactDetails
unfolding found
choose c url checksums [] = err (
    plain (
      codes "no candidates for version "
      ++ quote c.version
      ++ codes " and variant "
      ++ quote c.variant
      ++ codes " found"))
choose c url checksums (f ∷ fs) =
    let candidate = last_or f fs in found c url candidate (lookup candidate checksums)

unfoldable pub candidates : (List Text → List Text) → Centos → Map Text → List Text
unfolding is_candidate select keys
candidates key_order c checksums = select (is_candidate c) (key_order (keys checksums))

unfoldable pub inspect :
    (Text → Result Text) → (List Text → List Text) → Centos → Result ArtifactDetails
unfolding base_url choose candidates sort text_ltb
inspect get_all key_order c = do
  url ← base_url c
  raw ←
      errorf (codes "error downloading the centos stream checksum file: ")
        (get_all (url ++ codes "CHECKSUM"))
  checksums ← errorf (codes "error reading the centos stream checksum file: ") (parse raw bsd)
  choose c url checksums (sort text_ltb (candidates key_order c checksums))

unfoldable pub vm : Text → Text → Text → VirtualMachine
unfolding new_vm with_rng with_cloud_init_no_cloud
vm name img_ref user_data = new_vm name img_ref (with_rng ∷ with_cloud_init_no_cloud user_data ∷ [])

unfoldable pub user_data : UserData → Text
unfolding cloud_init
user_data d = cloud_init d

unfoldable pub tests : List ArtifactTest
tests = guest_os_info ∷ ssh ∷ []

unfoldable pub new : Text → Text → Option UserData → Map Text → Centos
new release arch example_user_data env_variables = record {
  version = release;
  variant = codes "GenericCloud";
  arch = arch;
  example_user_data = example_user_data;
  env_variables = env_variables;
}
