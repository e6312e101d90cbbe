-- ===== src/Tests/DocsTests.antt =====
-- cmd/medius/docs/docs.go at small inputs.
use containerdisks.Base.{
  ℕ, zero, suc, ◌≡◌, ◌≢◌, ◌↔◌, ◌⊎◌, refl, List, [], ◌∷◌, ◌++◌, All, Text, codes, arith,
}
use containerdisks.Go.Result.{Result, ok}
use containerdisks.Api.{ArtifactDetails, sha256}
use containerdisks.Medius.Docs.{get_quay_org, get_preferred_artifact}
use containerdisks.Medius.Docs.Choice.{
  IsFirstAmd64, IsOther, get_quay_org-parts, get_preferred_artifact-choice,
}

get_quay_org-parts_example :
    (get_quay_org (codes "quay.io" ++ b'/' ∷ codes "containerdisks") ≡ ok (codes "containerdisks"))
    ↔ ((codes "quay.io" ≡ codes "quay.io")
        × (codes "containerdisks" ≢ [])
        × (codes "containerdisks" ≡ codes "containerdisks"))
get_quay_org-parts_example =
    get_quay_org-parts (codes "quay.io") (codes "containerdisks") (codes "containerdisks")
      (omega arith) (omega arith)

abbrev details : Text → ArtifactDetails
details arch = record {
  checksum = [];
  checksum_hash = sha256;
  download_url = [];
  image_architecture = arch;
  compression = [];
  additional_unique_tags = [];
}

abbrev inspect : ℕ → Result ArtifactDetails
inspect zero = ok (details (codes "arm64"))
inspect (suc n) = ok (details (codes "amd64"))

chosen : get_preferred_artifact inspect (0 ∷ 1 ∷ 2 ∷ []) ≡ ok 1
unfolding get_preferred_artifact
chosen = refl

get_preferred_artifact-choice_example :
    IsFirstAmd64 inspect (0 ∷ 1 ∷ 2 ∷ []) 1
    ⊎ ((rest : List ℕ) × ((0 ∷ 1 ∷ 2 ∷ []) ≡ 1 ∷ rest) × All (IsOther inspect) (0 ∷ 1 ∷ 2 ∷ []))
get_preferred_artifact-choice_example =
    get_preferred_artifact-choice inspect (0 ∷ 1 ∷ 2 ∷ []) 1 chosen
