-- ===== src/Artifacts.antt =====
-- artifacts/: the artifact implementations, and the interface api.Artifact over them.
pub mod Ubuntu
pub mod Centos
pub mod Debian
pub mod Leap
pub mod Tumbleweed
pub mod Microos
pub mod Generic
pub mod Fedora
pub mod FedoraGatherer
use containerdisks.Base.{Option, List, Text}
use containerdisks.Go.Result.{Result}
use containerdisks.Docs.{UserData, VirtualMachine}
use containerdisks.Api.{ArtifactDetails, Metadata, ArtifactTest}

-- What is outside of the program: the bodies behind URLs, the order in which a `range` visits the
-- keys of a map, and json.Unmarshal at two types.
pub record Outside : Type 0 where
  pub get_all : Text → Result Text
  pub key_order : List Text → List Text
  pub unmarshal_build_data : Text → Option (List Debian.Item)
  pub unmarshal_releases : Text → Result (List Fedora.Release)

-- A value of the interface api.Artifact.
pub data Artifact : Type 0 where
  ubuntu : Ubuntu.Ubuntu → Artifact
  centos : Centos.Centos → Artifact
  debian : Debian.Debian → Artifact
  leap : Leap.Leap → Artifact
  tumbleweed : Tumbleweed.Tumbleweed → Artifact
  microos : Microos.Microos → Artifact
  generic : Generic.Generic → Artifact
  fedora : Fedora.Fedora → Artifact

unfoldable pub metadata : Artifact → Metadata
metadata (ubuntu a) = Ubuntu.metadata a
metadata (centos a) = Centos.metadata a
metadata (debian a) = Debian.metadata a
metadata (leap a) = Leap.metadata a
metadata (tumbleweed a) = Tumbleweed.metadata a
metadata (microos a) = Microos.metadata a
metadata (generic a) = Generic.metadata a
metadata (fedora a) = Fedora.metadata a

unfoldable pub inspect : Outside → Artifact → Result ArtifactDetails
inspect o (ubuntu a) = Ubuntu.inspect o.get_all a
inspect o (centos a) = Centos.inspect o.get_all o.key_order a
inspect o (debian a) = Debian.inspect o.get_all o.unmarshal_build_data a
inspect o (leap a) = Leap.inspect o.get_all a
inspect o (tumbleweed a) = Tumbleweed.inspect o.get_all o.key_order a
inspect o (microos a) = Microos.inspect o.get_all o.key_order a
inspect o (generic a) = Generic.inspect a
inspect o (fedora a) = Fedora.inspect (FedoraGatherer.get_releases o.get_all o.unmarshal_releases) a

unfoldable pub vm : Artifact → Text → Text → Text → VirtualMachine
vm (ubuntu a) = Ubuntu.vm
vm (centos a) = Centos.vm
vm (debian a) = Debian.vm
vm (leap a) = Leap.vm
vm (tumbleweed a) = Tumbleweed.vm
vm (microos a) = Microos.vm
vm (generic a) = Generic.vm
vm (fedora a) = Fedora.vm a

unfoldable pub user_data : Artifact → UserData → Text
user_data (ubuntu a) = Ubuntu.user_data
user_data (centos a) = Centos.user_data
user_data (debian a) = Debian.user_data
user_data (leap a) = Leap.user_data
user_data (tumbleweed a) = Tumbleweed.user_data
user_data (microos a) = Microos.user_data
user_data (generic a) = Generic.user_data
user_data (fedora a) = Fedora.user_data

unfoldable pub tests : Artifact → List ArtifactTest
tests (ubuntu a) = Ubuntu.tests
tests (centos a) = Centos.tests
tests (debian a) = Debian.tests
tests (leap a) = Leap.tests
tests (tumbleweed a) = Tumbleweed.tests
tests (microos a) = Microos.tests
tests (generic a) = Generic.tests
tests (fedora a) = Fedora.tests
