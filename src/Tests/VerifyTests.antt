-- ===== src/Tests/VerifyTests.antt =====
-- cmd/medius/images/verify.go in a small cluster.
use containerdisks.Base.{
  ℕ, ◌≡◌, refl, true, false, some, none, List, [], ◌∷◌, Text, codes, text_beq, All,
}
use containerdisks.Go.Result.{Error, ok, err}
use containerdisks.Go.Maps.{Map, empty, lookup}
use containerdisks.Api.{pos, ArtifactResult, Options, describe}
use containerdisks.Artifacts.{Artifact, ubuntu, metadata, tests}
use containerdisks.Artifacts.Ubuntu
use containerdisks.Registry.{Entry}
use containerdisks.Effects.{◌>>=◌}
use containerdisks.Medius.Workers.{stage_push}
use containerdisks.Medius.Verify.{Cluster, verify_artifact, verify_entry, verified}
use containerdisks.Medius.Verify.Target.{
  retrieve_architecture_artifact, retrieve_architecture_artifact-choice, IsFirstFor, IsForOther,
}
use containerdisks.Medius.Verify.Machines.{IsLife, verify_artifact-IsLife}
use containerdisks.Medius.Verify.Entries.{IsVerified, verify_entry-IsVerified}

-- The world is the number of rounds until a machine is ready.
abbrev pub cluster : Cluster
cluster = record {
  World = ℕ;
  Key = Unit {0};
  PublicKey = Unit {0};
  Instance = Text;
  canceled = λ w. (ok false, w);
  list_node_architectures = λ w. (ok (codes "amd64" ∷ []), w);
  generate_key = λ w. (ok tt, w);
  new_public_key = λ k. ok tt;
  marshal_authorized_key = λ k. codes "ssh-ed25519 AAAA\n";
  random_text = λ n w. (ok (codes "x7k2p"), w);
  create = λ namespace vm w. (ok vm, w);
  delete = λ namespace name w. (ok tt, w);
  get_ready = λ namespace name w. (ok true, w);
  get_instance = λ namespace name w. (ok name, w);
  poll = λ timeout condition w. (ok tt, (condition w).1);
  run_test = λ test instance username key w. (ok tt, w);
}

abbrev options : Options
options = record {
  allow_insecure_registry = false;
  dry_run = false;
  focus = [];
  images_options = record { results_file = codes "results.json"; workers = pos 1 };
  publish_docs_options = record { registry = []; token_file = [] };
  publish_images_options = record {
    force_build = false;
    no_fail = false;
    source_registry = [];
    target_registry = [];
  };
  promote_image_options = record { source_registry = []; target_registry = [] };
  verify_images_options = record {
    registry = codes "stage/c";
    namespace = codes "kubevirt";
    no_fail = false;
    timeout = 600;
    target_architecture = codes "amd64";
  };
}

abbrev pub noble : Text → Artifact
noble arch = ubuntu (record {
  version = codes "24.04";
  variant = codes "img";
  arch = arch;
  compression = [];
  env_variables = empty;
})

abbrev pub noble_entry : Entry Artifact
noble_entry = record {
  artifacts = noble (codes "aarch64") ∷ noble (codes "x86_64") ∷ [];
  use_for_docs = true;
  use_for_latest = false;
  skip_when_not_focused = false;
}

abbrev tags : List Text
tags = codes "ubuntu:24.04-1" ∷ codes "ubuntu:24.04" ∷ []

abbrev pushed_results : Map ArtifactResult
pushed_results = (codes "ubuntu:24.04", record { tags = tags; stage = stage_push; err = [] }) ∷ []

retrieve_architecture_artifact-choice_example :
    ((a : Artifact)
      → retrieve_architecture_artifact metadata (codes "amd64") noble_entry.artifacts ≡ ok a
      → IsFirstFor metadata (codes "amd64") noble_entry.artifacts a)
    × ((e : Error)
        → retrieve_architecture_artifact metadata (codes "amd64") noble_entry.artifacts ≡ err e
        → All (IsForOther metadata (codes "amd64")) noble_entry.artifacts)
retrieve_architecture_artifact-choice_example =
    retrieve_architecture_artifact-choice metadata (codes "amd64") noble_entry.artifacts

verify_artifact-IsLife_example :
    IsLife
      (tests (noble (codes "x86_64")))
      (verify_artifact cluster options (noble (codes "x86_64")) tags 3).0
      (verify_artifact cluster options (noble (codes "x86_64")) tags 3).1
verify_artifact-IsLife_example =
    verify_artifact-IsLife cluster options (noble (codes "x86_64")) tags 3

verified_run :
    (verify_entry cluster options pushed_results noble_entry 3).0
    ≡ ok (some (verified cluster options tags []), none)
unfolding verify_entry verify_artifact retrieve_architecture_artifact
    containerdisks.Medius.Verify.Target.first_for containerdisks.Architecture.get_image_architecture
    metadata Ubuntu.metadata tests Ubuntu.tests describe lookup text_beq ◌>>=◌
    containerdisks.Medius.Verify.verify_chosen containerdisks.Medius.Verify.verify_result
    containerdisks.Medius.Verify.verify_pushed containerdisks.Medius.Verify.create_vm
    containerdisks.Medius.Verify.marshall_public_key containerdisks.Medius.Verify.drop_last
    containerdisks.Medius.Verify.rand_name containerdisks.Medius.Verify.check_canceled
    containerdisks.Medius.Verify.with_machine containerdisks.Medius.Verify.exercise
    containerdisks.Medius.Verify.wait_vm_ready containerdisks.Medius.Verify.run_tests
    containerdisks.Effects.on_error containerdisks.Effects.branch containerdisks.Effects.call
    containerdisks.Effects.call_ok containerdisks.Effects.lift containerdisks.Effects.pure
    containerdisks.Effects.finally containerdisks.Effects.raise
verified_run = refl

verify_entry-IsVerified_example :
    (artifact : Artifact) × (retrieve_architecture_artifact metadata
        (codes "amd64")
        noble_entry.artifacts
      ≡ ok artifact)
    × IsVerified cluster options artifact
        (lookup (describe (metadata artifact)) pushed_results)
        (verify_entry cluster options pushed_results noble_entry 3).1
        (verified cluster options tags [])
verify_entry-IsVerified_example =
    verify_entry-IsVerified cluster options pushed_results noble_entry 3
      (verified cluster options tags []) verified_run
