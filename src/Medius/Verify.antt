-- ===== src/Medius/Verify.antt =====
-- cmd/medius/images/verify.go: the verification of an entry. `results` is what the results file holds.
-- The logger is left out.
pub mod Machines
pub mod Entries
pub mod Target
use containerdisks.Base.{
  ℕ, Bool, Option, none, some, List, [], ◌∷◌, ◌++◌, Text, codes, ◌==◌, text_eq, text_beq,
}
use containerdisks.Go.Result.{plain, canceled, message, Result, ok, err, panic}
use containerdisks.Go.Path.{path_join}
use containerdisks.Go.Maps.{Map, lookup}
use containerdisks.Docs.{VirtualMachine}
use containerdisks.Api.{ArtifactResult, ArtifactTest, Options, describe}
use containerdisks.Artifacts.{Artifact, metadata, vm, user_data, tests}
use containerdisks.Effects.{
  branch, Eff, pure, raise, lift, call, call_ok, finally, on_error, ◌>>=◌, ◌>>◌,
}
use containerdisks.Medius.Workers.{Outcome, stage_push, stage_verify}
use containerdisks.Medius.Verify.Target.{retrieve_architecture_artifact}
use containerdisks.Registry.{Entry}

-- The outside of the command: keys, random names, the cluster and the context. `poll` is
-- wait.PollUntilContextTimeout with an interval of a second, a first round at once, and a timeout in
-- seconds; it runs the condition that it is given. `run_test` is a function of pkg/tests.
pub record Cluster : Type 1 where
  pub World : Type 0
  pub Key : Type 0
  pub PublicKey : Type 0
  pub Instance : Type 0
  pub canceled : World → Result Bool × World
  pub list_node_architectures : World → Result (List Text) × World
  pub generate_key : World → Result Key × World
  pub new_public_key : Key → Result PublicKey
  pub marshal_authorized_key : PublicKey → Text
  pub random_text : ℕ → World → Result Text × World
  pub create : Text → VirtualMachine → World → Result VirtualMachine × World
  pub delete : Text → Text → World → Result (Unit {0}) × World
  pub get_ready : Text → Text → World → Result Bool × World
  pub get_instance : Text → Text → World → Result Instance × World
  pub poll : ℕ → (World → Result Bool × World) → World → Result (Unit {0}) × World
  pub run_test : ArtifactTest → Instance → Text → Key → World → Result (Unit {0}) × World

-- A machine that the cluster has created, one whose deletion is asked for, and a test that passed.
pub data Event : Type 0 where
  machine_created machine_deleted : Text → Event
  tested : ArtifactTest → Event

-- `marshaled[:len(marshaled)-1]`
unfoldable pub drop_last : Text → Result Text
drop_last [] = panic (codes "slice bounds out of range [:-1]")
drop_last (c ∷ []) = ok []
drop_last (c ∷ d ∷ s) = elim (drop_last (d ∷ s)) [
  | ok t ↦ ok (c ∷ t)
  | err e ↦ err e
  | panic m ↦ panic m
]

-- The machine, the user's name and the private key.
pub record Guest (Key : Type 0) : Type 0 where
  pub machine : VirtualMachine
  pub username : Text
  pub private_key : Key

module _ (C : Cluster) (options : Options) where
  open C use {World, Key, Instance}

  abbrev pub M : Type 0 → Type 0
  M A = Eff World Event A

  abbrev pub namespace : Text
  namespace = options.verify_images_options.namespace

  -- `if errors.Is(ctx.Err(), context.Canceled) { return ctx.Err() }`
  unfoldable pub check_canceled : M (Unit {0})
  check_canceled = do stop ← call [] C.canceled; branch stop (raise canceled) (pure tt)

  -- The architecture of the first node.
  abbrev first_node : List Text → M Text
  first_node [] = raise (plain (codes "no nodes found"))
  first_node (arch ∷ archs) = pure arch

  unfoldable pub retrieve_node_arch : M Text
  retrieve_node_arch = do nodes ← call [] C.list_node_architectures; first_node nodes

  -- An error ends the program. The options come back with the architecture filled in.
  unfoldable pub define_target_arch : M Options
  unfolding text_beq
  define_target_arch =
      branch (options.verify_images_options.target_architecture == [])
        (do
          arch ← retrieve_node_arch
          pure (record options {
            verify_images_options = record options.verify_images_options {
              target_architecture = arch;
            };
          }))
        (pure options)

  unfoldable pub marshall_public_key : Key → Result Text
  marshall_public_key key = elim (C.new_public_key key) [
    | ok public ↦ drop_last (C.marshal_authorized_key public)
    | err e ↦ err e
    | panic m ↦ panic m
  ]

  unfoldable pub rand_name : Text → M Text
  rand_name name = do suffix ← call [] (C.random_text 5); pure (name ++ b'-' ∷ suffix)

  unfoldable pub create_vm : Artifact → Text → M (Guest Key)
  create_vm artifact img_ref = do
    private_key ← call [] C.generate_key
    public_key ← lift (marshall_public_key private_key)
    let username = (metadata artifact).example_user_data.username
    let data_text =
        user_data artifact (record { username = username; authorized_keys = public_key ∷ [] })
    name ← rand_name (metadata artifact).name
    pure (record {
      machine = record (vm artifact name img_ref data_text) {
        termination_grace_period_seconds = 0;
      };
      username = username;
      private_key = private_key;
    })

  unfoldable pub wait_vm_ready : Text → M (Unit {0})
  wait_vm_ready name =
      call [] (C.poll options.verify_images_options.timeout (C.get_ready namespace name))

  -- The loop over the tests.
  unfoldable pub run_tests : Instance → Text → Key → List ArtifactTest → M (Unit {0})
  run_tests instance username key [] = pure tt
  run_tests instance username key (test ∷ rest) = do
    call_ok (λ _. tested test) (C.run_test test instance username key)
    check_canceled
    run_tests instance username key rest

  -- What is done with a machine once it was created, before its deletion.
  unfoldable pub exercise : Guest Key → List ArtifactTest → Text → M (Unit {0})
  exercise guest artifact_tests name = do
    check_canceled
    on_error (λ e. check_canceled >> raise e) (wait_vm_ready name)
    instance ← call [] (C.get_instance namespace name)
    check_canceled
    run_tests instance guest.username guest.private_key artifact_tests

  -- From the creation on, the deletion is deferred; its error is only logged.
  unfoldable pub with_machine : Guest Key → List ArtifactTest → M (Unit {0})
  with_machine guest artifact_tests = do
    created ←
        call_ok (λ (m : VirtualMachine). machine_created m.name) (C.create namespace guest.machine)
    finally (exercise guest artifact_tests created.name)
        (call (machine_deleted created.name ∷ []) (C.delete namespace created.name))

  unfoldable pub verify_artifact : Artifact → List Text → M (Unit {0})
  verify_artifact artifact [] = raise (plain (codes "no containerdisks to verify"))
  verify_artifact artifact (tag ∷ tags) = do
    guest ← create_vm artifact (path_join (options.verify_images_options.registry ∷ tag ∷ []))
    check_canceled
    with_machine guest (tests artifact)

  abbrev pub verified : List Text → Text → ArtifactResult
  verified tags e = record { tags = tags; stage = stage_verify; err = e }

  -- What is done with an entry that was pushed.
  unfoldable pub verify_pushed : Artifact → List Text → M Outcome
  verify_pushed artifact tags =
      on_error (λ e. pure (some (verified tags (message e)), some e))
        (do verify_artifact artifact tags; pure (some (verified tags []), none))

  -- The guards: the artifact has a result, it did not fail, and it was pushed.
  unfoldable pub verify_result : Artifact → Option ArtifactResult → M Outcome
  unfolding text_beq
  verify_result artifact none = pure (none, none)
  verify_result artifact (some r) =
      branch (r.err == [])
        (branch (r.stage == stage_push) (verify_pushed artifact r.tags) (pure (none, none)))
        (pure (
          none,
          some (
              plain (
                codes "artifact "
                ++ (describe (metadata artifact)
                    ++ (codes " failed in stage " ++ (r.stage ++ (codes ": " ++ r.err)))))),
        ))

  -- An entry with no artifact for the target is skipped; its first artifact is read for the log.
  unfoldable pub verify_chosen : Map ArtifactResult → List Artifact → Result Artifact → M Outcome
  unfolding lookup
  verify_chosen results artifacts (ok artifact) =
      verify_result artifact (lookup (describe (metadata artifact)) results)
  verify_chosen results [] (err e) = lift (panic (codes "index out of range [0] with length 0"))
  verify_chosen results (a ∷ artifacts) (err e) = pure (none, none)
  verify_chosen results artifacts (panic m) = lift (panic m)

  -- The function that the workers run.
  unfoldable pub verify_entry : Map ArtifactResult → Entry Artifact → M Outcome
  verify_entry results entry = verify_chosen results entry.artifacts (
      retrieve_architecture_artifact metadata options.verify_images_options.target_architecture
        entry.artifacts)
