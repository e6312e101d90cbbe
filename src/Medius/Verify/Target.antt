-- ===== src/Medius/Verify/Target.antt =====
-- cmd/medius/images/verify.go: the artifact of an entry for the architecture of the cluster.
use containerdisks.Base.{
  ◌≡◌, ◌≢◌, refl, ap, subst, ◌∙◌, Bool, true, false, Option, none, some, List, [], ◌∷◌, ◌++◌, Text,
  codes, All, arith, ◌==◌, text_eq, text_beq, text_beq_iff, if◌then◌else◌,
}
use containerdisks.Go.Result.{Error, plain, Result, ok, err, panic, ◌>>=◌, bind-eq-ok}
use containerdisks.Architecture.{get_image_architecture}
use containerdisks.Api.{Metadata}

module _ {A : Type 0} (metadata : A → Metadata) (target : Text) where
  -- slices.IndexFunc, and the artifact at the index: an architecture that is unknown ends the program.
  unfoldable pub first_for : List A → Result (Option A)
  unfolding text_beq
  first_for [] = ok none
  first_for (a ∷ artifacts) =
      let later = first_for artifacts in
      do
        arch ← get_image_architecture (metadata a).arch
        if arch == target then ok (some a) else later

  abbrev or_missing : Option A → Result A
  or_missing (some a) = ok a
  or_missing none = err (plain (codes "no artifact found for target architecture " ++ target))

  unfoldable pub retrieve_architecture_artifact : List A → Result A
  unfolding first_for
  retrieve_architecture_artifact artifacts = do found ← first_for artifacts; or_missing found

  abbrev pub IsFor : A → Type 0
  IsFor a = get_image_architecture (metadata a).arch ≡ ok target

  abbrev pub IsForOther : A → Type 0
  IsForOther a =
      (arch : Text) × (get_image_architecture (metadata a).arch ≡ ok arch) × (arch ≢ target)

  -- The first artifact for the target.
  abbrev pub IsFirstFor : List A → A → Type 0
  IsFirstFor artifacts a =
      (before : List A) × (after : List A) × (artifacts ≡ before ++ a ∷ after)
      × All IsForOther before
      × IsFor a

  -- What the search may find.
  abbrev Found : List A → Option A → Type 0
  Found artifacts none = All IsForOther artifacts
  Found artifacts (some a) = IsFirstFor artifacts a

  later-Found :
      (x : A) (artifacts : List A) (o : Option A)
      → IsForOther x
      → Found artifacts o
      → Found (x ∷ artifacts) o
  later-Found x artifacts none other found = (other, found)
  later-Found x artifacts (some a) other (before, after, e, others, is) =
      (x ∷ before, after, ap (λ l. x ∷ l) e, (other, others), is)

  first_for-Found :
      (artifacts : List A) (o : Option A) → first_for artifacts ≡ ok o → Found artifacts o
  unfolding first_for
  first_for-Found [] none h = tt
  first_for-Found [] (some a) h = absurd (cc h)
  first_for-Found (x ∷ artifacts) o h =
      let (arch, k, i) = bind-eq-ok _ (get_image_architecture (metadata x).arch) h in
      decide arch i (arch == target) refl k (λ l. first_for-Found artifacts o l)
    where
      decide :
          (arch : Text)
          → get_image_architecture (metadata x).arch ≡ ok arch
          → (b : Bool) → (arch == target) ≡ b
          → (if b then ok (some x) else first_for artifacts) ≡ ok o
          → (first_for artifacts ≡ ok o → Found artifacts o)
          → Found (x ∷ artifacts) o
      decide arch i true e k rest =
          let here : IsFor x = i ∙ ap ok ((text_beq_iff arch target).0 e) in
          let same : some x ≡ o = cc k in
          subst (Found (x ∷ artifacts)) same ([], artifacts, refl, tt, here)
      decide arch i false e k rest =
          let differs : arch ≢ target = λ p. cc ((text_beq_iff arch target).1 p, e) in
          later-Found x artifacts o (arch, i, differs) (rest k)

  no_error : (arch : Text) (e : Error) → get_image_architecture arch ≢ err e
  unfolding get_image_architecture
  no_error arch e h = ground arith

  first_for-ne-err : (artifacts : List A) (e : Error) → first_for artifacts ≢ err e
  unfolding first_for
  first_for-ne-err [] e h = cc h
  first_for-ne-err (x ∷ artifacts) e h =
      via (λ k. first_for-ne-err artifacts e k) (get_image_architecture (metadata x).arch) refl h
    where
      ends :
          (b : Bool)
          → (first_for artifacts ≡ err e → ⊥)
          → (if b then ok (some x) else first_for artifacts) ≡ err e
          → ⊥
      ends true rest k = cc k
      ends false rest k = rest k

      via :
          (first_for artifacts ≡ err e → ⊥)
          → (r : Result Text) → get_image_architecture (metadata x).arch ≡ r
          → (r >>= λ arch. if arch == target then ok (some x) else first_for artifacts) ≡ err e
          → ⊥
      via rest (ok arch) i k = ends (arch == target) rest k
      via rest (err e') i k = no_error (metadata x).arch e' i
      via rest (panic m) i k = cc k

  -- An artifact that is chosen is the first one whose image architecture is the target's, and the
  -- artifacts before it are for other architectures. If the choice fails with an error, all the
  -- artifacts are for other architectures.
  pub retrieve_architecture_artifact-choice :
      (artifacts : List A)
      → ((a : A) → retrieve_architecture_artifact artifacts ≡ ok a → IsFirstFor artifacts a)
        × ((e : Error)
            → retrieve_architecture_artifact artifacts ≡ err e
            → All IsForOther artifacts)
  unfolding retrieve_architecture_artifact
  retrieve_architecture_artifact-choice artifacts = (
    λ a h. let (o, k, e) = bind-eq-ok _ (first_for artifacts) h in found o a e k,
    λ e h. missing (first_for artifacts) e refl h,
  )
    where
      found :
          (o : Option A) (a : A)
          → first_for artifacts ≡ ok o
          → or_missing o ≡ ok a
          → IsFirstFor artifacts a
      found none a e k = absurd (cc k)
      found (some b) a e k =
          let same : b ≡ a = cc k in
          subst (IsFirstFor artifacts) same (first_for-Found artifacts (some b) e)

      missing :
          (r : Result (Option A)) (e : Error)
          → first_for artifacts ≡ r
          → (r >>= or_missing) ≡ err e
          → All IsForOther artifacts
      missing (ok none) e f k = first_for-Found artifacts none f
      missing (ok (some b)) e f k = absurd (cc k)
      missing (err x) e f k = absurd (first_for-ne-err artifacts x f)
      missing (panic m) e f k = absurd (cc k)
