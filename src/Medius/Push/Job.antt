-- ===== src/Medius/Push/Job.antt =====
-- cmd/medius/images/push.go: the function that the workers of the push command run.
use containerdisks.Base.{◌≡◌, Option, none, some, List, [], Text, ◌⊎◌, inl, inr}
use containerdisks.Go.Result.{Error, ok, message}
use containerdisks.Go.Time.{Time}
use containerdisks.Api.{ArtifactResult, Options}
use containerdisks.Effects.{pure, on_error, ◌>>=◌}
use containerdisks.Effects.Success.{handled-cases}
use containerdisks.Registry.{Entry}
use containerdisks.Medius.Env.{Env}
use containerdisks.Medius.Push.{M, run_entry}
use containerdisks.Medius.Workers.{Outcome, stage_push}

abbrev pub pushed : List Text → Text → ArtifactResult
pushed tags e = record { tags = tags; stage = stage_push; err = e }

-- The end of a push with no error: no tags stand for nothing to do.
abbrev pub push_outcome : Option (List Text) → Outcome
push_outcome none = (none, none)
push_outcome (some tags) = (some (pushed tags []), none)

module _ (V : Env) (options : Options) where
  open V use {World, Artifact}

  unfoldable pub push_job : Entry Artifact → Time → M V options Outcome
  push_job entry timestamp =
      on_error (λ e. pure (some (pushed [] (message e)), some e))
        (do tags ← run_entry V options entry timestamp; pure (push_outcome tags))

  -- A result of the push has the stage of the push.
  pub push_job_stage :
      (entry : Entry Artifact) (timestamp : Time) (w : World) (v : ArtifactResult)
      (e : Option Error)
      → ((push_job entry timestamp) w).0 ≡ ok (some v, e)
      → v.stage ≡ stage_push
  unfolding push_job
  push_job_stage entry timestamp w v e h =
      of_cases (handled-cases _ push_outcome (run_entry V options entry timestamp) w h)
    where
      of_tags : (tags : Option (List Text)) → push_outcome tags ≡ (some v, e) → v.stage ≡ stage_push
      of_tags none k = absurd (cc k)
      of_tags (some tags) k = cc k

      of_cases :
          ((tags : Option (List Text)) × (push_outcome tags ≡ (some v, e)))
            ⊎ ((x : Error) × (◌≡◌ {A = Outcome} (some (pushed [] (message x)), some x) (some v, e)))
          → v.stage ≡ stage_push
      of_cases (inl (tags, k)) = of_tags tags k
      of_cases (inr (x, k)) = cc k
