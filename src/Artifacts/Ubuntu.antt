-- ===== src/Artifacts/Ubuntu.antt =====
-- artifacts/ubuntu/ubuntu.go. `get_all` is the getter: the body behind a URL, or an error.
use containerdisks.Base.{false, Option, none, some, List, [], ◌∷◌, ◌++◌, Text, codes}
use containerdisks.Go.Result.{plain, Result, ok, err, errorf, ◌>>=◌}
use containerdisks.Go.Maps.{Map, lookup}
use containerdisks.Go.Strconv.{quote}
use containerdisks.Architecture.{get_image_architecture}
use containerdisks.Hashsum.{gnu, parse}
use containerdisks.Docs.{
  UserData, VirtualMachine, new_vm, with_rng, with_cloud_init_no_cloud, cloud_init,
}
use containerdisks.Api.{ArtifactDetails, Metadata, sha256, ArtifactTest, ssh}

pub record Ubuntu : Type 0 where
  pub version : Text
  pub variant : Text
  pub arch : Text
  pub compression : Text
  pub env_variables : Map Text

abbrev description : Text
description =
    codes
      "Ubuntu images for KubeVirt.\n<br />\n<br />\nVisit [ubuntu.com](https://ubuntu.com/) to learn more about Ubuntu."

unfoldable pub metadata : Ubuntu → Metadata
metadata u = record {
  name = codes "ubuntu";
  version = u.version;
  description = description;
  example_user_data = record { username = codes "ubuntu"; authorized_keys = [] };
  env_variables = u.env_variables;
  arch = u.arch;
  is_stable = false;
}

unfoldable pub base_url : Ubuntu → Text
base_url u = codes "https://cloud-images.ubuntu.com/releases/" ++ (u.version ++ codes "/release/")

-- The details for a checksum that was found.
found : Ubuntu → Option Text → Result ArtifactDetails
unfolding base_url
found u none = err (
    plain
      (codes "file " ++ quote u.variant ++ codes " does not exist in the SHA256SUMS file: <nil>"))
found u (some checksum) = do
  image_arch ← get_image_architecture u.arch
  ok (record {
    checksum = checksum;
    checksum_hash = sha256;
    download_url = base_url u ++ u.variant;
    image_architecture = image_arch;
    compression = u.compression;
    additional_unique_tags = [];
  })

unfoldable pub inspect : (Text → Result Text) → Ubuntu → Result ArtifactDetails
unfolding found base_url
inspect get_all u = do
  raw ←
      errorf (codes "error downloading the ubuntu SHA256SUMS file: ")
        (get_all (base_url u ++ codes "SHA256SUMS"))
  checksums ← errorf (codes "error reading the SHA256SUMS.txt file: ") (parse raw gnu)
  found u (lookup u.variant checksums)

unfoldable pub vm : Text → Text → Text → VirtualMachine
unfolding new_vm with_rng with_cloud_init_no_cloud
vm name img_ref user_data = new_vm name img_ref (with_rng ∷ with_cloud_init_no_cloud user_data ∷ [])

unfoldable pub user_data : UserData → Text
unfolding cloud_init
user_data d = cloud_init d

unfoldable pub tests : List ArtifactTest
tests = ssh ∷ []

unfoldable pub new : Text → Text → Map Text → Result Ubuntu
new release arch env_variables = do
  image_arch ← get_image_architecture arch
  ok (record {
    version = release;
    variant = codes "ubuntu-" ++ release ++ codes "-server-cloudimg-" ++ image_arch ++ codes ".img";
    arch = arch;
    compression = [];
    env_variables = env_variables;
  })
