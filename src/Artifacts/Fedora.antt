-- ===== src/Artifacts/Fedora.antt =====
-- artifacts/fedora/fedora.go: one release. `releases` is what `getReleases` returns.
use containerdisks.Base.{
  Bool, true, false, ◌&&◌, none, some, List, [], ◌∷◌, ◌++◌, Text, codes, ◌==◌, nat_eq, text_eq,
  text_beq, if◌then◌else◌, last_or,
}
use containerdisks.Go.Result.{plain, Result, ok, err, errorf, ◌>>=◌}
use containerdisks.Go.Strings.{has_suffix, split, to_lower, replace_all}
use containerdisks.Go.Maps.{Map, empty}
use containerdisks.Go.Strconv.{atoi, quote, is_digit}
use containerdisks.Go.Regexp.{Item, one, plus, find_submatch}
use containerdisks.Architecture.{get_image_architecture}
use containerdisks.Docs.{
  UserData, VirtualMachine, new_vm, with_rng, with_cloud_init_no_cloud, with_secure_boot,
  cloud_init,
}
use containerdisks.Api.{
  ArtifactDetails, Metadata, sha256, ArtifactTest, guest_os_info, ssh, default_instancetype_env,
  default_preference_env,
}

pub record Release : Type 0 where
  pub subvariant : Text
  pub variant : Text
  pub version : Text
  pub link : Text
  pub sha256 : Text
  pub arch : Text
  pub size : Text

pub record Fedora : Type 0 where
  pub version : Text
  pub release_version : Text
  pub arch : Text
  pub variant : Text
  pub env_variables : Map Text

abbrev description : Text
description =
    codes
      "<img src=\"https://upload.wikimedia.org/wikipedia/commons/thumb/3/3f/Fedora_logo.svg/240px-Fedora_logo.svg.png\" alt=\"drawing\" width=\"15\"/> Fedora [Cloud](https://alt.fedoraproject.org/cloud/) images for KubeVirt.\n<br />\n<br />\nVisit [getfedora.org](https://getfedora.org/) to learn more about the Fedora project."

abbrev pub amd64_arch : Text
amd64_arch = codes "x86_64"

abbrev pub arm64_arch : Text
arm64_arch = codes "aarch64"

abbrev pub s390x_arch : Text
s390x_arch = codes "s390x"

-- `\d+-\d+\.\d+`
abbrev pub additional_unique_tag_reg_exp : List Item
additional_unique_tag_reg_exp =
    plus false is_digit
    ∷ one (λ c. c == b'-')
    ∷ plus false is_digit
    ∷ one (λ c. c == b'.')
    ∷ plus false is_digit
    ∷ []

-- A pure integer is a stable version.
unfoldable pub is_stable_version : Text → Bool
unfolding atoi
is_stable_version version = elim (atoi version) [ none ↦ false | some n ↦ true ]

unfoldable pub normalize_version : Text → Text
unfolding to_lower replace_all
normalize_version version = to_lower (replace_all version b' ' b'-')

unfoldable pub metadata : Fedora → Metadata
unfolding is_stable_version
metadata f = record {
  name = codes "fedora";
  version = f.version;
  description = description;
  example_user_data = record { username = codes "fedora"; authorized_keys = [] };
  env_variables = f.env_variables;
  arch = f.arch;
  is_stable = is_stable_version f.release_version;
}

unfoldable pub release_matches : Fedora → Release → Bool
unfolding has_suffix text_beq
release_matches f release =
    release.version == f.release_version
    && release.arch == f.arch
    && release.variant == f.variant
    && has_suffix release.link (codes "qcow2")

-- What is behind the last slash.
unfoldable pub file_name : Text → Text
unfolding split
file_name link = last_or [] (split link b'/')

-- The numbers of the build in the file's name, if they are there.
unfoldable pub unique_tags : Text → List Text
unfolding file_name find_submatch
unique_tags link = elim (find_submatch additional_unique_tag_reg_exp (file_name link)) [
  | none ↦ []
  | some m ↦ m.whole ∷ []
]

-- The details of the release that was chosen.
unfoldable pub release_details : Fedora → Release → Result ArtifactDetails
unfolding unique_tags
release_details f release = do
  image_arch ← get_image_architecture f.arch
  ok (record {
    checksum = release.sha256;
    checksum_hash = sha256;
    download_url = release.link;
    image_architecture = image_arch;
    compression = [];
    additional_unique_tags = unique_tags release.link;
  })

-- The loop over the releases: the first one that matches.
unfoldable pub find_release : Fedora → List Release → Result ArtifactDetails
unfolding release_matches release_details
find_release f [] = err (
    plain (
      codes "no release information in releases.json for fedora:"
      ++ quote f.version
      ++ codes " found"))
find_release f (release ∷ releases) =
    let later = find_release f releases in
    if release_matches f release then release_details f release else later

unfoldable pub inspect : Result (List Release) → Fedora → Result ArtifactDetails
unfolding find_release
inspect releases f = do rs ← errorf (codes "error getting releases: ") releases; find_release f rs

unfoldable pub vm : Fedora → Text → Text → Text → VirtualMachine
unfolding new_vm with_rng with_cloud_init_no_cloud with_secure_boot text_beq
vm f name img_ref user_data =
    if f.arch == s390x_arch
    then new_vm name img_ref (with_rng ∷ with_cloud_init_no_cloud user_data ∷ [])
    else new_vm name img_ref (with_rng ∷ with_cloud_init_no_cloud user_data ∷ with_secure_boot ∷ [])

unfoldable pub user_data : UserData → Text
unfolding cloud_init
user_data d = cloud_init d

unfoldable pub tests : List ArtifactTest
tests = guest_os_info ∷ ssh ∷ []

abbrev preferring : Text → Map Text
preferring preference =
    (default_instancetype_env, codes "u1.medium") ∷ (default_preference_env, preference) ∷ []

-- The preference of a machine architecture; an unknown one sets no variables.
unfoldable pub set_env_variables : Fedora → Fedora
unfolding text_beq
set_env_variables f =
    if f.arch == amd64_arch
    then record f { env_variables = preferring (codes "fedora") }
    else if f.arch == arm64_arch
    then record f { env_variables = preferring (codes "fedora.arm64") }
    else if f.arch == s390x_arch
    then record f { env_variables = preferring (codes "fedora.s390x") }
    else f

unfoldable pub new : Text → Text → Fedora
unfolding normalize_version set_env_variables
new release arch = set_env_variables (record {
  version = normalize_version release;
  release_version = release;
  arch = arch;
  variant = codes "Cloud";
  env_variables = empty;
})
