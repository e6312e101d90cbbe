-- ===== src/Medius/Verify/Entries.antt =====
-- What a verified entry has gone through.
use containerdisks.Base.{
  ◌≡◌, refl, sym, ap, ◌∙◌, Option, none, some, List, [], ◌∷◌, ◌++◌, append-nil, map, Text, inl, inr,
  text_beq_iff,
}
use containerdisks.Go.Result.{Result, ok, err, panic}
use containerdisks.Go.Maps.{Map, lookup}
use containerdisks.Api.{ArtifactResult, ArtifactTest, Options, describe}
use containerdisks.Artifacts.{Artifact, metadata, tests}
use containerdisks.Registry.{Entry}
use containerdisks.Effects.{pure, lift}
use containerdisks.Effects.Success.{bind-ok, branch_then, on_error-ok}
use containerdisks.Effects.Leaves.{IsStop}
use containerdisks.Medius.Workers.{stage_push}
use containerdisks.Medius.Verify.{
  Cluster, Event, machine_created, machine_deleted, tested, verify_pushed, verify_result,
  verify_chosen, verify_entry, verified,
}
use containerdisks.Medius.Verify.Target.{retrieve_architecture_artifact}
use containerdisks.Medius.Verify.Machines.{IsLife, verify_artifact-IsLife}

-- The life of a machine on which all of the tests passed.
abbrev pub IsFullLife : List ArtifactTest → List Event → Type 0
IsFullLife ts es =
    (name : Text) × (es ≡ machine_created name ∷ (map tested ts ++ machine_deleted name ∷ []))

module _ (C : Cluster) (options : Options) where
  open C use {World}

  full :
      (ts : List ArtifactTest) (r : Result (Unit {0})) (es : List Event) (u : Unit {0})
      → r ≡ ok u
      → IsLife ts r es
      → IsFullLife ts es
  full ts r es u e (inl (_, stop)) = absurd (halted r e stop)
    where
      halted : (s : Result (Unit {0})) → s ≡ ok u → IsStop s → ⊥
      halted (ok v) k h = h
      halted (err x) k h = cc k
      halted (panic m) k h = cc k
  full ts r es u e (inr life) =
      let all_done =
        life.all ∙ (ap (λ l. life.done ++ l) (life.complete u e) ∙ append-nil life.done) in
      (
        life.name,
        life.events
            ∙ ap (λ l. machine_created life.name ∷ (map tested l ++ machine_deleted life.name ∷ []))
                (sym all_done),
      )

  verify_pushed-full :
      (artifact : Artifact) (tags : List Text) (w : World) (r : ArtifactResult)
      → ((verify_pushed C options artifact tags) w).0 ≡ ok (some r, none)
      → IsFullLife (tests artifact) ((verify_pushed C options artifact tags) w).1
        × (r ≡ verified C options tags [])
  unfolding verify_pushed pure
  verify_pushed-full artifact tags w r h =
      let (e, es) = on_error-ok _ _ w (λ x v k. cc k) h in
      let (u, e1, h1, es1) = bind-ok _ _ w e in
      let (name, life) =
        full (tests artifact) _ _ u e1 (verify_artifact-IsLife C options artifact tags w) in
      ((name, es ∙ (es1 ∙ (append-nil _ ∙ life))), cc h1)

  -- What is known of an artifact whose verification gave `r` and no error.
  abbrev pub IsVerified : Artifact → Option ArtifactResult → List Event → ArtifactResult → Type 0
  IsVerified artifact found es r =
      (v : ArtifactResult) × (found ≡ some v)
      × (v.stage ≡ stage_push)
      × (v.err ≡ [])
      × IsFullLife (tests artifact) es
      × (r ≡ verified C options v.tags [])

  verify_result-IsVerified :
      (artifact : Artifact) (found : Option ArtifactResult) (w : World) (r : ArtifactResult)
      → ((verify_result C options artifact found) w).0 ≡ ok (some r, none)
      → IsVerified artifact found ((verify_result C options artifact found) w).1 r
  unfolding verify_result pure
  verify_result-IsVerified artifact none w r h = absurd (cc h)
  verify_result-IsVerified artifact (some v) w r h =
      let (e, k, ev) = branch_then _ _ _ w h (λ k. cc k) in
      let (s, k', ev') = branch_then _ _ _ w k (λ k. cc k) in
      let ((name, life), same) = verify_pushed-full artifact v.tags w r k' in
      (
        v,
        refl,
        (text_beq_iff v.stage stage_push).0 s,
        (text_beq_iff v.err []).0 e,
        (name, ev ∙ (ev' ∙ life)),
        same,
      )

  verify_chosen-IsVerified :
      (results : Map ArtifactResult) (artifacts : List Artifact) (chosen : Result Artifact)
      (w : World) (r : ArtifactResult)
      → ((verify_chosen C options results artifacts chosen) w).0 ≡ ok (some r, none)
      → (artifact : Artifact) × (chosen ≡ ok artifact)
        × IsVerified artifact
            (lookup (describe (metadata artifact)) results)
            ((verify_chosen C options results artifacts chosen) w).1
            r
  unfolding verify_chosen pure lift
  verify_chosen-IsVerified results artifacts (ok a) w r h =
      (a, refl, verify_result-IsVerified a _ w r h)
  verify_chosen-IsVerified results [] (err e) w r h = absurd (cc h)
  verify_chosen-IsVerified results (a ∷ artifacts) (err e) w r h = absurd (cc h)
  verify_chosen-IsVerified results artifacts (panic m) w r h = absurd (cc h)

  -- If the verification of an entry ends with a result and no error, then the artifact for the
  -- target architecture had a result of the push with no error; one machine was created, all the
  -- tests of the artifact passed on it in their order, and its deletion was asked for last; and the
  -- result has the tags of the push, the stage of the verification and no error.
  pub verify_entry-IsVerified :
      (results : Map ArtifactResult) (entry : Entry Artifact) (w : World) (r : ArtifactResult)
      → ((verify_entry C options results entry) w).0 ≡ ok (some r, none)
      → (artifact : Artifact) × (retrieve_architecture_artifact metadata
            options.verify_images_options.target_architecture entry.artifacts
          ≡ ok artifact)
        × IsVerified artifact
            (lookup (describe (metadata artifact)) results)
            ((verify_entry C options results entry) w).1
            r
  unfolding verify_entry
  verify_entry-IsVerified results entry w r h =
      verify_chosen-IsVerified results entry.artifacts _ w r h
