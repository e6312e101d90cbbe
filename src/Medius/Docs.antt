-- ===== src/Medius/Docs.antt =====
-- cmd/medius/docs/docs.go: the choice of the artifact and of the organisation. The logger is left out.
pub mod Choice
pub mod Description
pub mod Publish
pub mod Published
pub mod DryRun
use containerdisks.Base.{
  List, [], ◌∷◌, ◌++◌, Text, codes, ◌==◌, text_eq, text_beq, if◌then◌else◌, not, ◌||◌,
}
use containerdisks.Go.Result.{plain, Result, ok, err, ◌>>=◌}
use containerdisks.Go.Strings.{split}
use containerdisks.Api.{ArtifactDetails}

abbrev pub amd64 : Text
amd64 = codes "amd64"

abbrev quay_error : Text → Result Text
quay_error registry = err (
    plain (
      codes "error determining quay.io organization from "
      ++ (registry ++ codes ", this command only works with quay.io")))

-- The parts of the registry: two of them, the first the host and the second not empty.
unfoldable pub org_of : Text → List Text → Result Text
unfolding text_beq
org_of registry (host ∷ org ∷ []) =
    if not (host == codes "quay.io") || org == [] then quay_error registry else ok org
org_of registry _ = quay_error registry

unfoldable pub get_quay_org : Text → Result Text
unfolding org_of split
get_quay_org registry = org_of registry (split registry b'/')

module _ {Artifact : Type 0} (inspect : Artifact → Result ArtifactDetails) where
  -- The loop over the artifacts: the first one for amd64, or else `first`.
  unfoldable pub prefer_amd64 : Artifact → List Artifact → Result Artifact
  unfolding text_beq
  prefer_amd64 first [] = ok first
  prefer_amd64 first (artifact ∷ artifacts) =
      let later = prefer_amd64 first artifacts in
      do
        details ← inspect artifact
        if details.image_architecture == amd64 then ok artifact else later

  unfoldable pub get_preferred_artifact : List Artifact → Result Artifact
  unfolding prefer_amd64
  get_preferred_artifact [] = err (plain (codes "no artifacts provided"))
  get_preferred_artifact (artifact ∷ artifacts) = prefer_amd64 artifact (artifact ∷ artifacts)
