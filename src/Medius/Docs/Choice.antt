-- ===== src/Medius/Docs/Choice.antt =====
-- What the docs command chooses.
use containerdisks.Base.{
  ◌≡◌, ◌≢◌, refl, sym, subst, ap, if◌then◌else◌, Bool, true, false, List, [], ◌∷◌, ◌++◌, Text,
  codes, All, ◌⊎◌, inl, inr, ◌↔◌, arith, text_beq_iff, ◌==◌, text_eq,
}
use containerdisks.Go.Result.{bind-eq-ok, Result, ok}
use containerdisks.Go.Strings.Split.{Lacks}
use containerdisks.Go.Bufio.Lines.{split-Lacks, split-Lacks_self}
use containerdisks.Api.{ArtifactDetails}
use containerdisks.Effects.Success.{ok-injective}
use containerdisks.Medius.Docs.{org_of, get_quay_org, prefer_amd64, get_preferred_artifact, amd64}

-- A registry `host/org` is accepted exactly if its host is quay.io and the organisation is not
-- empty, and then the organisation is what stands behind the slash.
pub get_quay_org-parts :
    (host org name : Text)
    → Lacks b'/' host
    → Lacks b'/' org
    → (get_quay_org (host ++ b'/' ∷ org) ≡ ok name)
      ↔ ((host ≡ codes "quay.io") × (org ≢ []) × (name ≡ org))
unfolding get_quay_org org_of
get_quay_org-parts host org name h k =
    rw (split-Lacks host org b'/' h, split-Lacks_self org b'/' k)
      (ground (arith, text_beq_iff host (codes "quay.io"), text_beq_iff org []))

not_both : {b : Bool} → b ≡ true → b ≡ false → ⊥
not_both h k = cc

module _ {Artifact : Type 0} (inspect : Artifact → Result ArtifactDetails) where
  abbrev pub IsAmd64 : Artifact → Type 0
  IsAmd64 a = (d : ArtifactDetails) × (inspect a ≡ ok d) × (d.image_architecture ≡ amd64)

  abbrev pub IsOther : Artifact → Type 0
  IsOther a = (d : ArtifactDetails) × (inspect a ≡ ok d) × (d.image_architecture ≢ amd64)

  -- The first artifact for amd64.
  abbrev pub IsFirstAmd64 : List Artifact → Artifact → Type 0
  IsFirstAmd64 artifacts a =
      (before : List Artifact) × (after : List Artifact) × (artifacts ≡ before ++ a ∷ after)
      × All IsOther before
      × IsAmd64 a

  later_first :
      (x a : Artifact) (artifacts : List Artifact)
      → IsOther x
      → IsFirstAmd64 artifacts a
      → IsFirstAmd64 (x ∷ artifacts) a
  later_first x a artifacts other (before, after, e, others, amd) =
      (x ∷ before, after, ap (λ l. x ∷ l) e, (other, others), amd)

  prefer_amd64-choice :
      (first : Artifact) (artifacts : List Artifact) (a : Artifact)
      → prefer_amd64 inspect first artifacts ≡ ok a
      → IsFirstAmd64 artifacts a ⊎ ((a ≡ first) × All IsOther artifacts)
  unfolding prefer_amd64
  prefer_amd64-choice first [] a h = inr (cc h, tt)
  prefer_amd64-choice first (x ∷ artifacts) a h =
      let (d, k, i) = bind-eq-ok _ (inspect x) h in
      decide d i (d.image_architecture == amd64) refl k
        (λ l. prefer_amd64-choice first artifacts a l)
    where
      decide :
          (d : ArtifactDetails)
          → inspect x ≡ ok d
          → (b : Bool) → (d.image_architecture == amd64) ≡ b
          → (if b then ok x else prefer_amd64 inspect first artifacts) ≡ ok a
          → (prefer_amd64 inspect first artifacts ≡ ok a
              → IsFirstAmd64 artifacts a ⊎ ((a ≡ first) × All IsOther artifacts))
          → IsFirstAmd64 (x ∷ artifacts) a ⊎ ((a ≡ first) × All IsOther (x ∷ artifacts))
      decide d i true e k rest =
          let xa = ok-injective k in
          inl (
            [],
            artifacts,
            ap (λ y. y ∷ artifacts) xa,
            tt,
            subst IsAmd64 xa (d, i, (text_beq_iff d.image_architecture amd64).0 e),
          )
      decide d i false e k rest =
          let other : IsOther x =
            (d, i, λ same. not_both ((text_beq_iff d.image_architecture amd64).1 same) e) in
          elim (rest k) [
            | inl found ↦ inl (later_first x a artifacts other found)
            | inr (p, others) ↦ inr (p, (other, others))
          ]

  -- An artifact that is chosen is the first one for amd64, and the artifacts before it are for
  -- other architectures; or it is the first artifact, and none of them is for amd64.
  pub get_preferred_artifact-choice :
      (artifacts : List Artifact) (a : Artifact)
      → get_preferred_artifact inspect artifacts ≡ ok a
      → IsFirstAmd64 artifacts a
        ⊎ ((rest : List Artifact) × (artifacts ≡ a ∷ rest) × All IsOther artifacts)
  unfolding get_preferred_artifact
  get_preferred_artifact-choice [] a h = absurd (cc h)
  get_preferred_artifact-choice (x ∷ rest) a h = elim (prefer_amd64-choice x (x ∷ rest) a h) [
    | inl found ↦ inl found
    | inr (e, others) ↦ inr (rest, ap (λ y. y ∷ rest) (sym e), others)
  ]
