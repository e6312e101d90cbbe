-- ===== src/Medius/Results/Pipeline.antt =====
-- The three commands one after the other, each on what the one before it left.
use containerdisks.Base.{
  ℕ, ◌≡◌, sym, ◌∙◌, Bool, Option, none, some, List, [], Text, length, All, ◌⊎◌, inl, inr,
}
use containerdisks.Go.Result.{Error, ok}
use containerdisks.Go.Time.{Time}
use containerdisks.Go.Maps.{Map, empty, lookup}
use containerdisks.Api.{ArtifactResult, Metadata, Options, describe}
use containerdisks.Artifacts.{Artifact, metadata}
use containerdisks.Registry.{Entry}
use containerdisks.Medius.Env.{Env}
use containerdisks.Medius.Push.Job.{push_job, push_job_stage}
use containerdisks.Medius.Promote.{Registries, promote_entry}
use containerdisks.Medius.Verify.{Cluster, verify_entry}
use containerdisks.Medius.Workers.{Pool, Steps, spawn, stage_push, stage_verify, stage_promote}
use containerdisks.Medius.Workers.Sent.{reachable-AllSent}
use containerdisks.Medius.Results.{collect}
use containerdisks.Medius.Results.Stages.{
  Advances, Moves, lookup-collect, promote_entry-Advances, verify_entry-Advances,
}

-- A run of a pool leads from a map of results to another, in whatever state it is left.
pub record Leads {Job : Type 0} (key : Job → Text)
    (run : Job → Option ArtifactResult → Option Error → Type 0) (before after : Map ArtifactResult)
    : Type 0 where
  pub skip : Job → Bool
  pub workers : ℕ
  pub registry : List Job
  pub state : Pool Job
  pub steps : Steps key run (length registry) (spawn skip workers registry) state
  pub collected : after ≡ collect before state.results

module _ {Job : Type 0} (key : Job → Text)
    (run : Job → Option ArtifactResult → Option Error → Type 0) (P : Text → ArtifactResult → Type 0)
    (gives : (j : Job) (v : ArtifactResult) (e : Option Error)
      → run j (some v) e
      → P (key j) v) where
  -- What a key holds behind a pool whose results have a property.
  leads-lookup :
      (before after : Map ArtifactResult) (asked : Text)
      → Leads key run before after
      → (lookup asked after ≡ lookup asked before)
        ⊎ ((v : ArtifactResult) × (lookup asked after ≡ some v) × P asked v)
  leads-lookup before after asked l = rw l.collected (
      lookup-collect P asked before l.state.results (
        reachable-AllSent key run (length l.registry) P gives l.skip l.workers l.registry l.state
          l.steps))

module _ (V : Env) (options : Options) where
  -- What a worker of the push command may give for an entry.
  abbrev pub PushRun : Entry V.Artifact → Option ArtifactResult → Option Error → Type 0
  PushRun entry r e =
      (time : Time) × (w : V.World) × (((push_job V options entry time) w).0 ≡ ok (r, e))

module _ (C : Cluster) (options : Options) (results : Map ArtifactResult) where
  -- Of the verify command, for an entry whose artifacts are described alike.
  pub record VerifyRun (key : Entry Artifact → Text) (entry : Entry Artifact)
      (r : Option ArtifactResult) (e : Option Error) : Type 0 where
    pub world : C.World
    pub alike : All (λ (a : Artifact). describe (metadata a) ≡ key entry) entry.artifacts
    pub given : ((verify_entry C options results entry) world).0 ≡ ok (r, e)

  -- The verify command refines the abstract one: in every state of its pool, what a key holds in
  -- the collected results is what it held before, or it has advanced from the stage of the push,
  -- with no error, to that of the verification, with its tags kept. The artifacts of an entry are
  -- taken to be described alike.
  pub verify-Moves :
      (key : Entry Artifact → Text) (after : Map ArtifactResult) (asked : Text)
      → Leads key (VerifyRun key) results after
      → Moves stage_push stage_verify (lookup asked results) (lookup asked after)
  verify-Moves key after asked l =
      leads-lookup key (VerifyRun key)
        (λ k v. Advances stage_push stage_verify (lookup k results) v)
        (λ j v e ran.
          verify_entry-Advances C options results j (key j) ran.world v e ran.alike ran.given)
        results after asked l

module _ (R : Registries) (options : Options) (results : Map ArtifactResult) where
  -- Of the promote command.
  abbrev pub PromoteRun : Metadata → Option ArtifactResult → Option Error → Type 0
  PromoteRun m r e = (w : R.World) × (((promote_entry R options results m) w).0 ≡ ok (r, e))

  -- The promote command refines the abstract one: in every state of its pool, what a key holds in
  -- the collected results is what it held before, or it has advanced from the stage of the
  -- verification, with no error, to that of the promotion, with its tags kept.
  pub promote-Moves :
      (after : Map ArtifactResult) (asked : Text)
      → Leads describe PromoteRun results after
      → Moves stage_verify stage_promote (lookup asked results) (lookup asked after)
  promote-Moves after asked l =
      leads-lookup describe PromoteRun
        (λ k v. Advances stage_verify stage_promote (lookup k results) v)
        (λ j v e ran. promote_entry-Advances R options results j ran.0 v e ran.1) results after
        asked l

module _ (V : Env) (C : Cluster) (R : Registries) (options : Options) where
  push-stage :
      (key : Entry V.Artifact → Text) (after : Map ArtifactResult) (asked : Text)
      (r : ArtifactResult)
      → Leads key (PushRun V options) empty after
      → lookup asked after ≡ some r
      → r.stage ≡ stage_push
  unfolding lookup
  push-stage key after asked r l h = staged (
      leads-lookup key (PushRun V options) (λ k v. v.stage ≡ stage_push)
        (λ j v e ran. push_job_stage V options j ran.0 ran.1 v e ran.2) empty after asked l)
    where
      staged :
          (lookup asked after ≡ none)
            ⊎ ((v : ArtifactResult) × (lookup asked after ≡ some v) × (v.stage ≡ stage_push))
          → r.stage ≡ stage_push
      staged (inl k) = absurd (cc (h, k))
      staged (inr (v, k, s)) = let same : v ≡ r = cc (h, k) in cc (s, same)

  -- What a promoted key went through.
  pub record IsPromoted (pushed verified : Map ArtifactResult) (asked : Text) (v : ArtifactResult)
      : Type 0 where
    pub push : ArtifactResult
    pub verification : ArtifactResult
    pub was_pushed : lookup asked pushed ≡ some push
    pub stage_pushed : push.stage ≡ stage_push
    pub push_ok : push.err ≡ []
    pub was_verified : lookup asked verified ≡ some verification
    pub stage_verified : verification.stage ≡ stage_verify
    pub verification_ok : verification.err ≡ []
    pub tags_verified : verification.tags ≡ push.tags
    pub tags_promoted : v.tags ≡ push.tags

  -- If the results of the push were verified, and those of the verification promoted, then a key
  -- that ends in the stage of the promotion was pushed and verified before, both with no error, and
  -- with the tags that it has at the end. The pools may be left in any state, and the artifacts of
  -- an entry are taken to be described alike.
  pub pipeline-IsPromoted :
      (push_key : Entry V.Artifact → Text) (verify_key : Entry Artifact → Text)
      (pushed verified promoted : Map ArtifactResult) (asked : Text) (v : ArtifactResult)
      → Leads push_key (PushRun V options) empty pushed
      → Leads verify_key (VerifyRun C options pushed verify_key) pushed verified
      → Leads describe (PromoteRun R options verified) verified promoted
      → lookup asked promoted ≡ some v
      → v.stage ≡ stage_promote
      → IsPromoted pushed verified asked v
  pipeline-IsPromoted push_key verify_key pushed verified promoted asked v lp lv lr h stage =
      last (promote-Moves R options verified promoted asked lr)
    where
      first :
          (r : ArtifactResult)
          → lookup asked verified ≡ some r
          → r.stage ≡ stage_verify
          → r.err ≡ []
          → v.tags ≡ r.tags
          → Moves stage_push stage_verify (lookup asked pushed) (lookup asked verified)
          → IsPromoted pushed verified asked v
      first r found s e ts (inl k) =
          let early = push-stage push_key pushed asked r lp (sym k ∙ found) in
          absurd (cc (early, s))
      first r found s e ts (inr (r', k, a)) =
          let same : r' ≡ r = cc (k, found) in
          record {
            push = a.old;
            verification = r;
            was_pushed = a.present;
            stage_pushed = a.stage_before;
            push_ok = a.no_error;
            was_verified = found;
            stage_verified = s;
            verification_ok = e;
            tags_verified = cc (a.tags, same);
            tags_promoted = cc (a.tags, same, ts);
          }

      middle : Moves stage_push stage_verify (lookup asked pushed) (lookup asked verified)
      middle = verify-Moves C options pushed verify_key verified asked lv

      unmoved :
          lookup asked verified ≡ some v
          → Moves stage_push stage_verify (lookup asked pushed) (lookup asked verified)
          → ⊥
      unmoved found (inl k) =
          let early = push-stage push_key pushed asked v lp (sym k ∙ found) in cc (early, stage)
      unmoved found (inr (r', k, a)) =
          let same : r' ≡ v = cc (k, found) in let late = a.stage_after in cc (late, same, stage)

      last :
          Moves stage_verify stage_promote (lookup asked verified) (lookup asked promoted)
          → IsPromoted pushed verified asked v
      last (inl k) = absurd (unmoved (sym k ∙ h) middle)
      last (inr (r', k, a)) =
          let same : r' ≡ v = cc (k, h) in
          first a.old a.present a.stage_before a.no_error (cc (a.tags, same)) middle
