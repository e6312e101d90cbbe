-- ===== src/Medius/Results/Stages.antt =====
-- The stages that a result goes through.
use containerdisks.Base.{
  ◌≡◌, refl, sym, subst, ◌∙◌, Bool, true, false, Option, none, some, List, [], ◌∷◌, ◌++◌, Text, All,
  ◌⊎◌, inl, inr, ◌==◌, text_eq, text_beq_iff, if◌then◌else◌,
}
use containerdisks.Go.Result.{Error, Result, ok, err, panic, message}
use containerdisks.Go.Maps.{Map, insert, lookup, lookup-insert}
use containerdisks.Api.{ArtifactResult, Metadata, Options, describe}
use containerdisks.Artifacts.{Artifact, metadata}
use containerdisks.Registry.{Entry}
use containerdisks.Effects.{pure, lift}
use containerdisks.Effects.Success.{handled-cases, branch_then}
use containerdisks.Medius.Workers.{Outcome, WorkerResult, stage_push, stage_verify, stage_promote}
use containerdisks.Medius.Promote.{
  Registries, promoted, promote_artifact, promote_verified, promote_result, promote_entry,
}
use containerdisks.Medius.Verify.{
  Cluster, verified, verify_artifact, verify_pushed, verify_result, verify_chosen, verify_entry,
}
use containerdisks.Medius.Verify.Target.{
  retrieve_architecture_artifact, retrieve_architecture_artifact-choice,
}
use containerdisks.Medius.Results.{collect}

-- A result with no error moves from a stage to another, and keeps its tags.
pub record Advances (before after : Text) (found : Option ArtifactResult) (v : ArtifactResult)
    : Type 0 where
  pub old : ArtifactResult
  pub present : found ≡ some old
  pub stage_before : old.stage ≡ before
  pub no_error : old.err ≡ []
  pub stage_after : v.stage ≡ after
  pub tags : v.tags ≡ old.tags

-- The abstract command, for one key: the result stays, or it advances.
abbrev pub Moves : Text → Text → Option ArtifactResult → Option ArtifactResult → Type 0
Moves before after found found' =
    (found' ≡ found) ⊎ ((v : ArtifactResult) × (found' ≡ some v) × Advances before after found v)

module _ (P : Text → ArtifactResult → Type 0) where
  -- What a key holds behind the loop over the results: what it held, or a result of that key.
  pub lookup-collect :
      (asked : Text) (results : Map ArtifactResult) (rs : List WorkerResult)
      → All (λ (r : WorkerResult). P r.key r.value) rs
      → (lookup asked (collect results rs) ≡ lookup asked results)
        ⊎ ((v : ArtifactResult) × (lookup asked (collect results rs) ≡ some v) × P asked v)
  unfolding collect
  lookup-collect asked results [] h = inl refl
  lookup-collect asked results (r ∷ rs) h =
      later (lookup-collect asked (insert r.key r.value results) rs h.1)
    where
      Holds : Option ArtifactResult → Type 0
      Holds found =
          (found ≡ lookup asked results) ⊎ ((v : ArtifactResult) × (found ≡ some v) × P asked v)

      here :
          (b : Bool)
          → (r.key == asked) ≡ b
          → Holds (if b then some r.value else lookup asked results)
      here true e =
          inr (r.value, refl, subst (λ k. P k r.value) ((text_beq_iff r.key asked).0 e) h.0)
      here false e = inl refl

      later :
          (lookup asked (collect (insert r.key r.value results) rs)
              ≡ lookup asked (insert r.key r.value results))
            ⊎ ((v : ArtifactResult) × (lookup asked (collect (insert r.key r.value results) rs)
                  ≡ some v)
                × P asked v)
          → Holds (lookup asked (collect (insert r.key r.value results) rs))
      later (inl k) =
          subst Holds (sym (k ∙ lookup-insert r.key asked r.value results))
            (here (r.key == asked) refl)
      later (inr found) = inr found

module _ (R : Registries) (options : Options) where
  promote_verified-tags :
      (tags : List Text) (w : R.World) (v : ArtifactResult) (e : Option Error)
      → ((promote_verified R options tags) w).0 ≡ ok (some v, e)
      → (v.tags ≡ tags) × (v.stage ≡ stage_promote)
  unfolding promote_verified
  promote_verified-tags tags w v e h =
      of_cases (handled-cases _ _ (promote_artifact R options tags) w h)
    where
      of_cases :
          ((u : Unit {0}) × (◌≡◌ {A = Outcome}
                (some (promoted R options tags []), none)
                (some v, e)))
            ⊎ ((x : Error) × (◌≡◌ {A = Outcome}
                  (some (promoted R options tags (message x)), some x)
                  (some v, e)))
          → (v.tags ≡ tags) × (v.stage ≡ stage_promote)
      of_cases (inl (u, k)) = (cc k, cc k)
      of_cases (inr (x, k)) = (cc k, cc k)

  -- A result that the promotion of an entry gives has advanced, even one with an error.
  pub promote_entry-Advances :
      (results : Map ArtifactResult) (m : Metadata) (w : R.World) (v : ArtifactResult)
      (e : Option Error)
      → ((promote_entry R options results m) w).0 ≡ ok (some v, e)
      → Advances stage_verify stage_promote (lookup (describe m) results) v
  unfolding promote_entry promote_result pure
  promote_entry-Advances results m w v e h = found (lookup (describe m) results) refl h
    where
      found :
          (o : Option ArtifactResult)
          → lookup (describe m) results ≡ o
          → ((promote_result R options (describe m) o) w).0 ≡ ok (some v, e)
          → Advances stage_verify stage_promote (lookup (describe m) results) v
      found none l k = absurd (cc k)
      found (some r) l k =
          let (x, k1, ev) = branch_then _ _ _ w k (λ n. cc n) in
          let (y, k2, ev') = branch_then _ _ _ w k1 (λ n. cc n) in
          let (ts, st) = promote_verified-tags r.tags w v e k2 in
          record {
            old = r;
            present = l;
            stage_before = (text_beq_iff r.stage stage_verify).0 y;
            no_error = (text_beq_iff r.err []).0 x;
            stage_after = st;
            tags = ts;
          }

module _ (C : Cluster) (options : Options) where
  verify_pushed-tags :
      (artifact : Artifact) (tags : List Text) (w : C.World) (v : ArtifactResult) (e : Option Error)
      → ((verify_pushed C options artifact tags) w).0 ≡ ok (some v, e)
      → (v.tags ≡ tags) × (v.stage ≡ stage_verify)
  unfolding verify_pushed
  verify_pushed-tags artifact tags w v e h =
      of_cases (handled-cases _ _ (verify_artifact C options artifact tags) w h)
    where
      of_cases :
          ((u : Unit {0}) × (◌≡◌ {A = Outcome}
                (some (verified C options tags []), none)
                (some v, e)))
            ⊎ ((x : Error) × (◌≡◌ {A = Outcome}
                  (some (verified C options tags (message x)), some x)
                  (some v, e)))
          → (v.tags ≡ tags) × (v.stage ≡ stage_verify)
      of_cases (inl (u, k)) = (cc k, cc k)
      of_cases (inr (x, k)) = (cc k, cc k)

  verify_result-Advances :
      (artifact : Artifact) (o : Option ArtifactResult) (w : C.World) (v : ArtifactResult)
      (e : Option Error)
      → ((verify_result C options artifact o) w).0 ≡ ok (some v, e)
      → Advances stage_push stage_verify o v
  unfolding verify_result pure
  verify_result-Advances artifact none w v e k = absurd (cc k)
  verify_result-Advances artifact (some r) w v e k =
      let (x, k1, ev) = branch_then _ _ _ w k (λ n. cc n) in
      let (y, k2, ev') = branch_then _ _ _ w k1 (λ n. cc n) in
      let (ts, st) = verify_pushed-tags artifact r.tags w v e k2 in
      record {
        old = r;
        present = refl;
        stage_before = (text_beq_iff r.stage stage_push).0 y;
        no_error = (text_beq_iff r.err []).0 x;
        stage_after = st;
        tags = ts;
      }

  -- A result that the verification of an entry gives has advanced, if the artifacts of the entry are
  -- described alike.
  pub verify_entry-Advances :
      (results : Map ArtifactResult) (entry : Entry Artifact) (key : Text) (w : C.World)
      (v : ArtifactResult) (e : Option Error)
      → All (λ (a : Artifact). describe (metadata a) ≡ key) entry.artifacts
      → ((verify_entry C options results entry) w).0 ≡ ok (some v, e)
      → Advances stage_push stage_verify (lookup key results) v
  unfolding verify_entry verify_chosen pure lift
  verify_entry-Advances results entry key w v e alike h =
      chosen
        (retrieve_architecture_artifact metadata options.verify_images_options.target_architecture
          entry.artifacts)
        entry.artifacts refl h
    where
      split :
          (before after : List Artifact) (a : Artifact)
          → All (λ (a : Artifact). describe (metadata a) ≡ key) (before ++ a ∷ after)
          → describe (metadata a) ≡ key
      split [] after a h = h.0
      split (b ∷ before) after a h = split before after a h.1

      chosen :
          (r : Result Artifact) (artifacts : List Artifact)
          → retrieve_architecture_artifact metadata
              options.verify_images_options.target_architecture entry.artifacts
            ≡ r
          → ((verify_chosen C options results artifacts r) w).0 ≡ ok (some v, e)
          → Advances stage_push stage_verify (lookup key results) v
      chosen (ok a) artifacts c k =
          let (before, after, parts, _, _) =
            (retrieve_architecture_artifact-choice metadata
                options.verify_images_options.target_architecture entry.artifacts).0
              a c in
          let same =
            split before after a
              (subst (All (λ (a : Artifact). describe (metadata a) ≡ key)) parts alike) in
          subst (λ d. Advances stage_push stage_verify (lookup d results) v) same
            (verify_result-Advances a _ w v e k)
      chosen (err x) [] c k = absurd (cc k)
      chosen (err x) (a ∷ artifacts) c k = absurd (cc k)
      chosen (panic m) [] c k = absurd (cc k)
      chosen (panic m) (a ∷ artifacts) c k = absurd (cc k)
