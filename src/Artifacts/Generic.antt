-- ===== src/Artifacts/Generic.antt =====
-- artifacts/generic/generic.go
use containerdisks.Base.{List, [], Text}
use containerdisks.Go.Result.{Result, ok}
use containerdisks.Docs.{UserData, VirtualMachine, basic_vm}
use containerdisks.Api.{ArtifactDetails, Metadata, ArtifactTest}

pub record Generic : Type 0 where
  pub artifact_details : ArtifactDetails
  pub meta : Metadata

unfoldable pub metadata : Generic → Metadata
metadata c = c.meta

unfoldable pub inspect : Generic → Result ArtifactDetails
inspect c = ok c.artifact_details

unfoldable pub vm : Text → Text → Text → VirtualMachine
unfolding basic_vm
vm name img_ref user_data = basic_vm name img_ref

unfoldable pub user_data : UserData → Text
user_data d = []

unfoldable pub tests : List ArtifactTest
tests = []

unfoldable pub new : ArtifactDetails → Metadata → Generic
new artifact_details metadata = record { artifact_details = artifact_details; meta = metadata }
