-- ===== src/Artifacts/Leap.antt =====
-- artifacts/opensuse/leap/leap.go. `get_all` is the getter.
use containerdisks.Base.{false, List, [], ◌∷◌, ◌++◌, Text, codes}
use containerdisks.Go.Result.{Result, ok, ◌>>=◌}
use containerdisks.Go.Strings.{split}
use containerdisks.Go.Maps.{Map}
use containerdisks.Architecture.{get_image_architecture}
use containerdisks.Docs.{
  UserData, VirtualMachine, new_vm, with_rng, with_cloud_init_no_cloud, cloud_init,
}
use containerdisks.Api.{ArtifactDetails, Metadata, sha256, ArtifactTest, ssh}

pub record Leap : Type 0 where
  pub arch : Text
  pub version : Text
  pub env_variables : Map Text

abbrev description : Text
description =
    codes
      "openSUSE Leap images for KubeVirt.\n<br />\n<br />\nVisit [get.opensuse.org/leap/](https://get.opensuse.org/leap/) to learn more about openSUSE Leap."

unfoldable pub base_url : Leap → Text
base_url l =
    codes "https://download.opensuse.org/distribution/leap/"
    ++ (l.version
        ++ (codes "/appliances/openSUSE-Leap-"
            ++ (l.version ++ (codes "-Minimal-VM." ++ (l.arch ++ codes "-Cloud.qcow2")))))

-- `strings.Split(…, " ")[0]`
unfoldable pub first_field : Text → Text
unfolding split
first_field s = elim (split s b' ') [ [] ↦ [] | p ∷ ps ↦ p ]

unfoldable pub inspect : (Text → Result Text) → Leap → Result ArtifactDetails
unfolding base_url first_field
inspect get_all l = do
  checksum_bytes ← get_all (base_url l ++ codes ".sha256")
  image_arch ← get_image_architecture l.arch
  ok (record {
    checksum = first_field checksum_bytes;
    checksum_hash = sha256;
    download_url = base_url l;
    image_architecture = image_arch;
    compression = [];
    additional_unique_tags = [];
  })

unfoldable pub metadata : Leap → Metadata
metadata l = record {
  name = codes "opensuse-leap";
  version = l.version;
  description = description;
  example_user_data = record { username = codes "opensuse"; authorized_keys = [] };
  env_variables = l.env_variables;
  arch = l.arch;
  is_stable = false;
}

unfoldable pub vm : Text → Text → Text → VirtualMachine
unfolding new_vm with_rng with_cloud_init_no_cloud
vm name img_ref user_data = new_vm name img_ref (with_rng ∷ with_cloud_init_no_cloud user_data ∷ [])

unfoldable pub user_data : UserData → Text
unfolding cloud_init
user_data d = cloud_init d

unfoldable pub tests : List ArtifactTest
tests = ssh ∷ []

unfoldable pub new : Text → Text → Map Text → Leap
new arch version env_variables = record {
  arch = arch;
  version = version;
  env_variables = env_variables;
}
