-- ===== src/Tests/PipelineTests.antt =====
-- The commands push, verify and promote on one entry, and the pool on two.
use containerdisks.Base.{
  ℕ, ◌≡◌, refl, sym, ap, ◌∙◌, true, false, Option, some, none, List, [], ◌∷◌, Text, codes, arith,
  text_beq, ltb, if◌then◌else◌,
}
use containerdisks.Go.Result.{Error, ok, plain}
use containerdisks.Go.Maps.{Map, empty, lookup, insert}
use containerdisks.Api.{pos, ArtifactResult, Metadata, Options, describe}
use containerdisks.Artifacts
use containerdisks.Artifacts.Ubuntu
use containerdisks.Effects.{◌>>=◌}
use containerdisks.Medius.Env.{Env}
use containerdisks.Medius.Push.Job.{push_job}
use containerdisks.Medius.Promote.{promote_entry}
use containerdisks.Medius.Verify.{verify_entry}
use containerdisks.Medius.Workers.{
  Pool, PoolEnd, Steps, stay, more, send, take, finish, leave, spawn, limit_workers, kept_jobs,
  stage_push, stage_verify, stage_promote,
}
use containerdisks.Medius.Workers.Sequential.{Gives, IsRunOf, reachable-IsRunOf}
use containerdisks.Medius.Results.{Files, collect}
use containerdisks.Medius.Results.Stages.{Moves}
use containerdisks.Medius.Results.Pipeline.{
  Leads, PushRun, VerifyRun, PromoteRun, IsPromoted, verify-Moves, promote-Moves,
  pipeline-IsPromoted,
}
use containerdisks.Tests.PushTests.{env, noon, entry}
use containerdisks.Tests.VerifyTests.{cluster, noble, noble_entry}
use containerdisks.Tests.PromoteTests.{registries}

abbrev options : Options
options = record {
  allow_insecure_registry = false;
  dry_run = false;
  focus = [];
  images_options = record { results_file = codes "results.json"; workers = pos 1 };
  publish_docs_options = record { registry = []; token_file = [] };
  publish_images_options = record {
    force_build = false;
    no_fail = false;
    source_registry = codes "stage/c";
    target_registry = codes "stage/c";
  };
  promote_image_options = record {
    source_registry = codes "stage/c";
    target_registry = codes "quay.io/c";
  };
  verify_images_options = record {
    registry = codes "stage/c";
    namespace = codes "kubevirt";
    no_fail = false;
    timeout = 600;
    target_architecture = codes "amd64";
  };
}

abbrev name : Text
name = codes "ubuntu:24.04"

abbrev noble_metadata : Metadata
unfolding Artifacts.metadata Ubuntu.metadata
noble_metadata = Artifacts.metadata (noble (codes "x86_64"))

abbrev noble_env : Env
noble_env = record env { metadata = λ n. noble_metadata }

abbrev tags : List Text
tags =
    codes "ubuntu:24.04-2607011200"
    ∷ codes "ubuntu:6-1"
    ∷ codes "ubuntu:24.04"
    ∷ codes "ubuntu:latest"
    ∷ []

abbrev result : Text → ArtifactResult
result stage = record { tags = tags; stage = stage; err = [] }

abbrev results : Text → Map ArtifactResult
results stage = (name, result stage) ∷ []

-- A pool with one worker and one entry, run to its end.
module _ {Job : Type 0} (key : Job → Text)
    (run : Job → Option ArtifactResult → Option Error → Type 0) (j : Job) (v : ArtifactResult)
    (ran : run j (some v) none) where
  abbrev trace :
      (t : Pool Job) × Steps key run 1 (spawn (λ (i : Job). false) 1 (j ∷ [])) t
      × (t.results ≡ record { key = key j; value = v } ∷ [])
  unfolding spawn limit_workers kept_jobs
  trace = (
    _,
    more (more (more stay (send j [] refl (omega arith) refl)) (take j [] 0 refl refl refl))
        (finish [] [] j (some v) none false refl ran (omega arith) (omega arith) refl),
    refl,
  )

  abbrev leads :
      (before after : Map ArtifactResult)
      → after ≡ collect before (record { key = key j; value = v } ∷ [])
      → Leads key run before after
  leads before after e = record {
    skip = λ i. false;
    workers = 1;
    registry = j ∷ [];
    state = trace.0;
    steps = trace.1;
    collected = e ∙ ap (λ rs. collect before rs) (sym trace.2);
  }

pushed_run : (push_job noble_env options entry noon 1).0 ≡ ok (some (result stage_push), none)
unfolding push_job Artifacts.metadata Ubuntu.metadata containerdisks.Medius.Push.run_entry
    containerdisks.Medius.Push.run_artifacts ◌>>=◌ containerdisks.Effects.on_error
    containerdisks.Medius.Push.rebuild_needed containerdisks.Medius.Push.any_changed
    containerdisks.Medius.Push.get_image_checksum containerdisks.Base.text_beq
    containerdisks.Go.Maps.lookup containerdisks.Medius.Push.build_and_push
    containerdisks.Medius.Push.check_canceled containerdisks.Medius.Push.build_images
    containerdisks.Medius.Push.get_artifact containerdisks.Medius.Push.get_artifact_reader
    containerdisks.Medius.Push.attempt containerdisks.Effects.finally
    containerdisks.Medius.Push.read_artifact containerdisks.Medius.Push.open_stream
    containerdisks.Api.describe containerdisks.Build.container_disk
    containerdisks.Build.container_disk_config containerdisks.Effects.branch
    containerdisks.Effects.call containerdisks.Effects.call_ok containerdisks.Effects.lift
    containerdisks.Effects.pure containerdisks.Effects.raise containerdisks.Go.Maps.keys
    containerdisks.Go.Path.clean containerdisks.Go.Path.clean_joined
    containerdisks.Go.Path.drop_empty containerdisks.Go.Path.go_up containerdisks.Go.Path.path_join
    containerdisks.Go.Path.resolve containerdisks.Go.Strings.join containerdisks.Go.Strings.split
    containerdisks.Go.Time.format_stamp containerdisks.Go.Time.two_digits
    containerdisks.Medius.Push.cleanup_artifacts containerdisks.Medius.Push.copy_chunks
    containerdisks.Medius.Push.publish containerdisks.Medius.Push.publish_all
    containerdisks.Medius.Push.push_image containerdisks.Medius.Push.verify_checksum
    containerdisks.Medius.Tags.prepare_tags containerdisks.Medius.Tags.unique_names
pushed_run = refl

verified_run :
    (verify_entry cluster options (results stage_push) noble_entry 3).0
    ≡ ok (some (result stage_verify), none)
unfolding verify_entry containerdisks.Medius.Verify.verify_artifact
    containerdisks.Medius.Verify.Target.retrieve_architecture_artifact
    containerdisks.Medius.Verify.Target.first_for containerdisks.Architecture.get_image_architecture
    Artifacts.metadata Ubuntu.metadata Artifacts.tests Ubuntu.tests describe lookup text_beq ◌>>=◌
    containerdisks.Medius.Verify.verify_chosen containerdisks.Medius.Verify.verify_result
    containerdisks.Medius.Verify.verify_pushed containerdisks.Medius.Verify.create_vm
    containerdisks.Medius.Verify.marshall_public_key containerdisks.Medius.Verify.drop_last
    containerdisks.Medius.Verify.rand_name containerdisks.Medius.Verify.check_canceled
    containerdisks.Medius.Verify.with_machine containerdisks.Medius.Verify.exercise
    containerdisks.Medius.Verify.wait_vm_ready containerdisks.Medius.Verify.run_tests
    containerdisks.Effects.on_error containerdisks.Effects.branch containerdisks.Effects.call
    containerdisks.Effects.call_ok containerdisks.Effects.lift containerdisks.Effects.pure
    containerdisks.Effects.finally containerdisks.Effects.raise
verified_run = refl

promoted_run :
    (promote_entry registries options (results stage_verify) noble_metadata tt).0
    ≡ ok (some (result stage_promote), none)
unfolding promote_entry containerdisks.Medius.Promote.promote_result describe
    containerdisks.Effects.branch containerdisks.Medius.Promote.promote_verified
    containerdisks.Effects.on_error containerdisks.Effects.◌>>=◌
    containerdisks.Medius.Promote.promote_artifact containerdisks.Medius.Promote.copy_all
    containerdisks.Medius.Promote.copy containerdisks.Medius.Promote.check_canceled text_beq lookup
    Artifacts.metadata Ubuntu.metadata
promoted_run = refl

pushed_leads : Leads (λ j. name) (PushRun noble_env options) empty (results stage_push)
unfolding collect insert
pushed_leads =
    leads (λ j. name) (PushRun noble_env options) entry (result stage_push) (noon, 1, pushed_run)
      empty _ refl

verified_leads :
    Leads
      (λ j. name)
      (VerifyRun cluster options (results stage_push) (λ j. name))
      (results stage_push)
      (results stage_verify)
unfolding collect insert text_beq Artifacts.metadata Ubuntu.metadata describe
verified_leads =
    leads (λ j. name) (VerifyRun cluster options (results stage_push) (λ j. name)) noble_entry
      (result stage_verify) (record { world = 3; alike = (refl, (refl, tt)); given = verified_run })
      (results stage_push) _ refl

promoted_leads :
    Leads describe
      (PromoteRun registries options (results stage_verify))
      (results stage_verify)
      (results stage_promote)
unfolding collect insert text_beq Artifacts.metadata Ubuntu.metadata describe
promoted_leads =
    leads describe (PromoteRun registries options (results stage_verify)) noble_metadata
      (result stage_promote) (tt, promoted_run) (results stage_verify) _ refl

verify-Moves_example :
    Moves stage_push stage_verify
      (lookup name (results stage_push))
      (lookup name (results stage_verify))
verify-Moves_example =
    verify-Moves cluster options (results stage_push) (λ j. name) (results stage_verify) name
      verified_leads

promote-Moves_example :
    Moves stage_verify stage_promote
      (lookup name (results stage_verify))
      (lookup name (results stage_promote))
promote-Moves_example =
    promote-Moves registries options (results stage_verify) (results stage_promote) name
      promoted_leads

found_promoted : lookup name (results stage_promote) ≡ some (result stage_promote)
unfolding lookup text_beq
found_promoted = refl

pipeline-IsPromoted_example :
    IsPromoted noble_env cluster registries options
      (results stage_push)
      (results stage_verify)
      name
      (result stage_promote)
pipeline-IsPromoted_example =
    pipeline-IsPromoted noble_env cluster registries options (λ j. name) (λ j. name)
      (results stage_push) (results stage_verify) (results stage_promote) name
      (result stage_promote) pushed_leads verified_leads promoted_leads found_promoted refl

-- Two entries and two workers: the one taken last is done first.
abbrev key : ℕ → Text
key j = if ltb 7 j then codes "b:1" else codes "a:1"

abbrev outcome : ℕ → Option ArtifactResult × Option Error
outcome j = (some (result stage_push), none)

abbrev two :
    (t : Pool ℕ) × Steps key (Gives key outcome) 2 (spawn (λ (i : ℕ). false) 2 (7 ∷ 8 ∷ [])) t
unfolding spawn limit_workers kept_jobs
two = (
  _,
  more
      (more
        (more
          (more
            (more
              (more
                (more (more stay (send 7 (8 ∷ []) refl (omega arith) refl))
                  (send 8 [] refl (omega arith) refl))
                (take 7 (8 ∷ []) 1 refl refl refl))
              (take 8 [] 0 refl refl refl))
            (finish [] (7 ∷ []) 8 (some (result stage_push)) none false refl refl (omega arith)
              (omega arith) refl))
          (finish [] [] 7 (some (result stage_push)) none false refl refl (omega arith)
            (omega arith) refl))
        (leave 1 refl refl refl refl))
      (leave 0 refl refl refl refl),
)

reachable-IsRunOf_example : IsRunOf key outcome (kept_jobs (λ (i : ℕ). false) (7 ∷ 8 ∷ [])) two.0
unfolding two limit_workers
reachable-IsRunOf_example =
    reachable-IsRunOf key outcome (λ i. false) 2 (7 ∷ 8 ∷ []) two.0 two.1 refl refl (omega arith)

-- A disk whose files can be written, and a pool with one result.
abbrev files : Files
files = record {
  World = Unit {0};
  read_file = λ file w. (ok [], w);
  write_file = λ file content mode w. (ok tt, w);
  marshal_indent = λ m. ok (codes "{}");
  unmarshal = λ t. ok empty;
}

abbrev pool_result : PoolEnd
pool_result = record {
  matched = true;
  results = record { key = name; value = result stage_push } ∷ [];
  error = some (plain (codes "timeout"));
}
