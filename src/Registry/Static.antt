-- ===== src/Registry/Static.antt =====
-- cmd/medius/common/registry.go: the entries that the program lists, and the registry of a run.
use containerdisks.Base.{Bool, true, false, Option, some, List, [], ◌∷◌, map, Text, codes}
use containerdisks.Go.Result.{Result, ok, ◌>>=◌}
use containerdisks.Go.Maps.{Map, empty}
use containerdisks.Docs.{UserData}
use containerdisks.Api.{Metadata, sha256, default_instancetype_env, default_preference_env}
use containerdisks.Artifacts.{
  Artifact, Outside, ubuntu, centos, debian, leap, tumbleweed, microos, generic, fedora, metadata,
}
use containerdisks.Artifacts.Ubuntu
use containerdisks.Artifacts.Centos
use containerdisks.Artifacts.Debian
use containerdisks.Artifacts.Leap
use containerdisks.Artifacts.Tumbleweed
use containerdisks.Artifacts.Microos
use containerdisks.Artifacts.Generic
use containerdisks.Artifacts.Fedora
use containerdisks.Artifacts.FedoraGatherer
use containerdisks.Registry.{Entry, gather_artifacts}

unfoldable pub default_env_variables : Text → Text → Map Text
default_env_variables instancetype preference =
    (default_instancetype_env, instancetype) ∷ (default_preference_env, preference) ∷ []

abbrev env : Text → Map Text
unfolding default_env_variables
env preference = default_env_variables (codes "u1.medium") preference

abbrev user : Text → Option UserData
user name = some (record { username = name; authorized_keys = [] })

abbrev plain_entry : List Artifact → Bool → Entry Artifact
plain_entry artifacts use_for_docs = record {
  artifacts = artifacts;
  use_for_docs = use_for_docs;
  use_for_latest = false;
  skip_when_not_focused = false;
}

abbrev centos_entry : Text → Text → Entry Artifact
unfolding env Centos.new
centos_entry release preference =
    plain_entry
      (centos (Centos.new release (codes "x86_64") (user (codes "cloud-user")) (env preference))
        ∷ centos (Centos.new release (codes "aarch64") (user (codes "cloud-user")) (env preference))
        ∷ centos (Centos.new release (codes "s390x") (user (codes "cloud-user")) (env preference))
        ∷ [])
      true

abbrev ubuntu_entry : Text → Bool → Result (Entry Artifact)
unfolding env Ubuntu.new
ubuntu_entry release use_for_docs = do
  amd ← Ubuntu.new release (codes "x86_64") (env (codes "ubuntu"))
  arm ← Ubuntu.new release (codes "aarch64") (env (codes "ubuntu"))
  ibm ← Ubuntu.new release (codes "s390x") (env (codes "ubuntu"))
  ok (plain_entry (ubuntu amd ∷ ubuntu arm ∷ ubuntu ibm ∷ []) use_for_docs)

abbrev tumbleweed_entry : Entry Artifact
unfolding env Tumbleweed.new
tumbleweed_entry =
    plain_entry
      (tumbleweed (Tumbleweed.new (codes "x86_64") (env (codes "opensuse.tumbleweed")))
        ∷ tumbleweed (Tumbleweed.new (codes "s390x") (env (codes "opensuse.tumbleweed")))
        ∷ [])
      true

abbrev microos_entry : Entry Artifact
unfolding env Microos.new
microos_entry =
    plain_entry
      (microos (Microos.new (codes "x86_64") (env (codes "opensuse.tumbleweed")))
        ∷ microos (Microos.new (codes "s390x") (env (codes "opensuse.tumbleweed")))
        ∷ [])
      true

abbrev leap_entry : Text → Bool → Entry Artifact
unfolding env Leap.new
leap_entry version use_for_docs =
    plain_entry
      (leap (Leap.new (codes "x86_64") version (env (codes "opensuse.leap")))
        ∷ leap (Leap.new (codes "aarch64") version (env (codes "opensuse.leap")))
        ∷ [])
      use_for_docs

abbrev debian_artifacts : Text → Text → List Artifact
unfolding env Debian.new
debian_artifacts version name =
    debian (Debian.new version name (codes "x86_64") (user (codes "debian")) (env (codes "debian")))
    ∷ debian
        (Debian.new version name (codes "aarch64") (user (codes "debian")) (env (codes "debian")))
    ∷ []

abbrev cirros_metadata : Metadata
cirros_metadata = record {
  name = codes "cirros";
  version = codes "6.1";
  description = [];
  example_user_data = record { username = []; authorized_keys = [] };
  env_variables = empty;
  arch = [];
  is_stable = false;
}

abbrev cirros : Text → Text → Text → Artifact
unfolding Generic.new
cirros checksum url image_arch = generic (
    Generic.new
      (record {
        checksum = checksum;
        checksum_hash = sha256;
        download_url = url;
        image_architecture = image_arch;
        compression = [];
        additional_unique_tags = [];
      })
      cirros_metadata)

-- For testing only.
abbrev cirros_entry : Entry Artifact
unfolding cirros
cirros_entry = record {
  artifacts =
      cirros (codes "cc704ab14342c1c8a8d91b66a7fc611d921c8b8f1aaf4695f9d6463d913fa8d1")
        (codes "https://download.cirros-cloud.net/0.6.1/cirros-0.6.1-x86_64-disk.img")
        (codes "amd64")
      ∷ cirros (codes "db9420c481c11dee17860aa46fb1a3efa05fa4fb152726d6344e24da03cb0ccf")
          (codes "https://download.cirros-cloud.net/0.6.1/cirros-0.6.1-aarch64-disk.img")
          (codes "arm64")
      ∷ [];
  use_for_docs = false;
  use_for_latest = false;
  skip_when_not_focused = true;
}

-- A constructor of ubuntu may panic; it does not at these architectures.
unfoldable pub static_registry : Result (List (Entry Artifact))
unfolding centos_entry ubuntu_entry tumbleweed_entry microos_entry leap_entry debian_artifacts
    cirros_entry
static_registry = do
  ubuntu_25_04 ← ubuntu_entry (codes "25.04") false
  ubuntu_24_04 ← ubuntu_entry (codes "24.04") true
  ubuntu_22_04 ← ubuntu_entry (codes "22.04") false
  ubuntu_20_04 ← ubuntu_entry (codes "20.04") false
  ok (
      centos_entry (codes "10") (codes "centos.stream10")
      ∷ centos_entry (codes "9") (codes "centos.stream9")
      ∷ ubuntu_25_04
      ∷ ubuntu_24_04
      ∷ ubuntu_22_04
      ∷ ubuntu_20_04
      ∷ tumbleweed_entry
      ∷ microos_entry
      ∷ leap_entry (codes "15.6") true
      ∷ leap_entry (codes "15.5") false
      ∷ plain_entry (debian_artifacts (codes "11") (codes "bullseye")) false
      ∷ plain_entry (debian_artifacts (codes "12") (codes "bookworm")) false
      ∷ record {
        artifacts = debian_artifacts (codes "13") (codes "trixie");
        use_for_docs = true;
        use_for_latest = true;
        skip_when_not_focused = false;
      }
      ∷ cirros_entry
      ∷ [])

abbrev as_artifacts : Result (List (List Fedora.Fedora)) → Result (List (List Artifact))
as_artifacts r = do groups ← r; ok (map (map fedora) groups)

-- The entries of a run: the static ones, then one for each gathered Fedora version.
unfoldable pub new_registry : Outside → Result (List (Entry Artifact))
unfolding static_registry gather_artifacts FedoraGatherer.gather metadata
    FedoraGatherer.new_gatherer
new_registry o = do
  static ← static_registry
  gather_artifacts metadata static (
      as_artifacts (
        FedoraGatherer.gather o.get_all o.unmarshal_releases o.key_order
          FedoraGatherer.new_gatherer)
      ∷ [])
