-- ===== src/Artifacts/Microos.antt =====
-- artifacts/opensuse/microos/microos.go. `get_all` is the getter; `key_order` is the order in which
-- a `range` visits the keys of a map.
use containerdisks.Base.{
  Bool, true, false, Option, none, some, List, [], ◌∷◌, ◌++◌, Text, codes, ◌==◌, nat_eq, text_eq,
  if◌then◌else◌,
}
use containerdisks.Go.Result.{plain, Result, ok, err, errorf, ◌>>=◌}
use containerdisks.Go.Maps.{Map, lookup, keys}
use containerdisks.Go.Strconv.{quote}
use containerdisks.Go.Regexp.{find_submatch, literal}
use containerdisks.Architecture.{get_image_architecture}
use containerdisks.Hashsum.{gnu, parse}
use containerdisks.Docs.{
  UserData, VirtualMachine, new_vm, with_rng, with_cloud_init_no_cloud, cloud_init,
}
use containerdisks.Api.{ArtifactDetails, Metadata, sha256, ArtifactTest, ssh}

pub record Microos : Type 0 where
  pub arch : Text
  pub variant : Text
  pub env_variables : Map Text

abbrev description : Text
description =
    codes
      "openSUSE MicroOS images for KubeVirt.\n<br />\n<br />\nVisit [get.opensuse.org/microos/](https://get.opensuse.org/microos/) to learn more about openSUSE MicroOS."

abbrev s390x_arch : Text
s390x_arch = codes "s390x"

abbrev micro_os_version : Text
micro_os_version = codes "16.0.0"

unfoldable pub retrieve_base_url : Microos → Text
retrieve_base_url t =
    if t.arch == s390x_arch
    then codes "https://download.opensuse.org/ports/zsystems/tumbleweed/appliances/"
    else codes "https://download.opensuse.org/tumbleweed/appliances/"

unfoldable pub subvariant_by_architecture : Microos → Text
subvariant_by_architecture t =
    if t.arch == s390x_arch then codes "s390x-Cloud" else codes "OpenStack-Cloud"

-- The text that the pattern stands for: its dots are escaped.
unfoldable pub retrieve_regexp_version : Microos → Text
retrieve_regexp_version t = micro_os_version

-- The compiled pattern, `variant\.arch-version-subvariant`. The variants and the architectures of
-- the program hold no character that is special in a pattern.
unfoldable pub file_rex : Microos → Text
unfolding retrieve_regexp_version subvariant_by_architecture
file_rex t =
    t.variant
    ++ (b'.'
        ∷ (t.arch ++ (b'-' ∷ (retrieve_regexp_version t ++ b'-' ∷ subvariant_by_architecture t))))

-- `MatchString`
unfoldable pub matches : Microos → Text → Bool
unfolding file_rex find_submatch literal
matches t file = elim (find_submatch (literal (file_rex t)) file) [ none ↦ false | some m ↦ true ]

-- The value that the visit of a key has with it.
abbrev value_or_empty : Option Text → Text
value_or_empty none = []
value_or_empty (some v) = v

-- The loop over the map: the first file that the pattern matches, in the order of the visit.
unfoldable pub find_file : Microos → Map Text → List Text → Option Text
unfolding matches
find_file t checksums [] = none
find_file t checksums (file ∷ files) =
    let later = find_file t checksums files in if matches t file then some file else later

-- The details for the file that was found.
found : Microos → Map Text → Option Text → Result ArtifactDetails
unfolding retrieve_base_url lookup
found t checksums none = err (
    plain (
      codes "variant " ++ quote t.variant ++ codes " does not exist in the SHA256SUMS file: <nil>"))
found t checksums (some file) = do
  image_arch ← get_image_architecture t.arch
  ok (record {
    checksum = value_or_empty (lookup file checksums);
    checksum_hash = sha256;
    download_url = retrieve_base_url t ++ file;
    image_architecture = image_arch;
    compression = [];
    additional_unique_tags = [];
  })

unfoldable pub inspect :
    (Text → Result Text) → (List Text → List Text) → Microos → Result ArtifactDetails
unfolding retrieve_base_url find_file found keys
inspect get_all key_order t = do
  raw ←
      errorf (codes "error downloading the SHA256SUMS file: ")
        (get_all (retrieve_base_url t ++ codes "SHA256SUMS"))
  checksums ← errorf (codes "error reading the SHA256SUMS file: ") (parse raw gnu)
  found t checksums (find_file t checksums (key_order (keys checksums)))

unfoldable pub metadata : Microos → Metadata
metadata t = record {
  name = codes "opensuse-microos";
  version = micro_os_version;
  description = description;
  example_user_data = record { username = codes "root"; authorized_keys = [] };
  env_variables = t.env_variables;
  arch = t.arch;
  is_stable = false;
}

unfoldable pub vm : Text → Text → Text → VirtualMachine
unfolding new_vm with_rng with_cloud_init_no_cloud
vm name img_ref user_data = new_vm name img_ref (with_rng ∷ with_cloud_init_no_cloud user_data ∷ [])

unfoldable pub user_data : UserData → Text
unfolding cloud_init
user_data d = cloud_init d

unfoldable pub tests : List ArtifactTest
tests = ssh ∷ []

unfoldable pub new : Text → Map Text → Microos
new arch env_variables = record {
  arch = arch;
  variant = codes "openSUSE-MicroOS";
  env_variables = env_variables;
}
