-- ===== src/Medius/Verify/Machines.antt =====
-- The life of the machine that a verification creates.
use containerdisks.Base.{◌≡◌, refl, ap, List, [], ◌∷◌, ◌++◌, map, Text, ◌⊎◌, inl, inr}
use containerdisks.Go.Result.{Result, ok, err, panic}
use containerdisks.Api.{ArtifactTest, Options}
use containerdisks.Artifacts.{Artifact, tests}
use containerdisks.Docs.{VirtualMachine}
use containerdisks.Effects.{call, call_ok, pure, raise, finally, on_error, ◌>>=◌, ◌>>◌}
use containerdisks.Effects.Emits.{Emits, emits_rules}
use containerdisks.Effects.Leaves.{Leaves, Leaves-bind, IsNothing, IsStop}
use containerdisks.Medius.Verify.{
  Cluster, Event, Guest, machine_created, machine_deleted, tested, check_canceled, create_vm,
  rand_name, wait_vm_ready, run_tests, exercise, with_machine, verify_artifact,
}

-- Some of the tests passed, in their order and each once; all of them if the run succeeds.
pub record TestsRun (ts : List ArtifactTest) (r : Result (Unit {0})) (es : List Event)
    : Type 0 where
  pub done : List ArtifactTest
  pub left : List ArtifactTest
  pub all : ts ≡ done ++ left
  pub events : es ≡ map tested done
  pub complete : (u : Unit {0}) → r ≡ ok u → left ≡ []

-- A machine was created, tests passed on it, and its deletion came last.
pub record MachineLife (ts : List ArtifactTest) (r : Result (Unit {0})) (es : List Event)
    : Type 0 where
  pub name : Text
  pub done : List ArtifactTest
  pub left : List ArtifactTest
  pub all : ts ≡ done ++ left
  pub events : es ≡ machine_created name ∷ (map tested done ++ machine_deleted name ∷ [])
  pub complete : (u : Unit {0}) → r ≡ ok u → left ≡ []

-- Or nothing was created, and the verification failed.
abbrev pub IsLife : List ArtifactTest → Result (Unit {0}) → List Event → Type 0
IsLife ts r es = ((es ≡ []) × IsStop r) ⊎ MachineLife ts r es

module _ (C : Cluster) (options : Options) where
  open C use {World, Key, Instance}

  Emits-check_canceled : Emits IsNothing (check_canceled C options)
  unfolding check_canceled
  Emits-check_canceled = search emits_rules

  Emits-create_vm :
      (a : Artifact) (img_ref : Text) → Emits IsNothing (create_vm C options a img_ref)
  unfolding create_vm rand_name
  Emits-create_vm a img_ref = search emits_rules depth 9

  Emits-wait_vm_ready :
      (name : Text)
      → Emits IsNothing
          (on_error (λ e. check_canceled C options >> raise e) (wait_vm_ready C options name))
  unfolding wait_vm_ready
  Emits-wait_vm_ready name = search (emits_rules, Emits-check_canceled) depth 8

  stopped : (ts : List ArtifactTest) (s : Result (Unit {0})) → IsStop s → TestsRun ts s []
  stopped ts (ok u) h = absurd h
  stopped ts (err e) h = record {
    done = [];
    left = ts;
    all = refl;
    events = refl;
    complete = λ u k. absurd (cc k);
  }
  stopped ts (panic m) h = record {
    done = [];
    left = ts;
    all = refl;
    events = refl;
    complete = λ u k. absurd (cc k);
  }

  passed :
      (t : ArtifactTest) (ts : List ArtifactTest) (r : Result (Unit {0})) (es : List Event)
      → TestsRun ts r es
      → TestsRun (t ∷ ts) r (tested t ∷ es)
  passed t ts r es h = record {
    done = t ∷ h.done;
    left = h.left;
    all = ap (λ l. t ∷ l) h.all;
    events = ap (λ l. tested t ∷ l) h.events;
    complete = h.complete;
  }

  run_tests-TestsRun :
      (instance : Instance) (username : Text) (key : Key) (ts : List ArtifactTest)
      → Leaves (TestsRun ts) (run_tests C options instance username key ts)
  unfolding run_tests pure call_ok ◌>>=◌
  run_tests-TestsRun instance username key [] = record {
    at = λ w. record { done = []; left = []; all = refl; events = refl; complete = λ u k. refl };
  }
  run_tests-TestsRun instance username key (t ∷ ts) = record {
    at = λ w.
        go w (run_tests-TestsRun instance username key ts) (C.run_test t instance username key w).0
          refl;
  }
    where
      go :
          (w : World)
          → Leaves (TestsRun ts) (run_tests C options instance username key ts)
          → (r : Result (Unit {0})) → (C.run_test t instance username key w).0 ≡ r
          → TestsRun
              (t ∷ ts)
              ((run_tests C options instance username key (t ∷ ts)) w).0
              ((run_tests C options instance username key (t ∷ ts)) w).1
      go w rest (ok u) e =
          rw e
            (passed t ts _ _ ((Leaves-bind _ _ Emits-check_canceled (stopped ts) (λ _. rest)).at _))
      go w rest (err x) e = rw e (stopped (t ∷ ts) (err x) tt)
      go w rest (panic m) e = rw e (stopped (t ∷ ts) (panic m) tt)

  exercise-TestsRun :
      (guest : Guest Key) (ts : List ArtifactTest) (name : Text)
      → Leaves (TestsRun ts) (exercise C options guest ts name)
  unfolding exercise
  exercise-TestsRun guest ts name = Leaves-bind _ _ Emits-check_canceled (stopped ts) λ _.
      Leaves-bind _ _ (Emits-wait_vm_ready name) (stopped ts) λ _.
        Leaves-bind _ _ (search emits_rules) (stopped ts) λ instance.
          Leaves-bind _ _ Emits-check_canceled (stopped ts)
            λ _. run_tests-TestsRun instance guest.username guest.private_key ts

  lived :
      (name : Text) (ts : List ArtifactTest) (r : Result (Unit {0})) (es : List Event)
      → TestsRun ts r es
      → MachineLife ts r (machine_created name ∷ (es ++ machine_deleted name ∷ []))
  lived name ts r es h = record {
    name = name;
    done = h.done;
    left = h.left;
    all = h.all;
    events = ap (λ l. machine_created name ∷ (l ++ machine_deleted name ∷ [])) h.events;
    complete = h.complete;
  }

  no-IsLife : (ts : List ArtifactTest) (s : Result (Unit {0})) → IsStop s → IsLife ts s []
  no-IsLife ts s h = inl (refl, h)

  with_machine-IsLife :
      (guest : Guest Key) (ts : List ArtifactTest)
      → Leaves (IsLife ts) (with_machine C options guest ts)
  unfolding with_machine ◌>>=◌ call_ok finally call
  with_machine-IsLife guest ts = record {
    at = λ w. go w (C.create options.verify_images_options.namespace guest.machine w).0 refl;
  }
    where
      go :
          (w : World) (r : Result VirtualMachine)
          → (C.create options.verify_images_options.namespace guest.machine w).0 ≡ r
          → IsLife ts
              ((with_machine C options guest ts) w).0
              ((with_machine C options guest ts) w).1
      go w (ok m) e = rw e (inr (lived m.name ts _ _ ((exercise-TestsRun guest ts m.name).at _)))
      go w (err x) e = rw e (no-IsLife ts (err x) tt)
      go w (panic p) e = rw e (no-IsLife ts (panic p) tt)

  -- Whatever the cluster answers and however the verification of an artifact ends, it either
  -- created no machine and failed, or it created one machine, some tests of the artifact passed
  -- in their order, and the deletion of that machine was asked for last. If it succeeds, a machine
  -- was created and all the tests passed.
  pub verify_artifact-IsLife :
      (artifact : Artifact) (tags : List Text) (w : World)
      → IsLife
          (tests artifact)
          ((verify_artifact C options artifact tags) w).0
          ((verify_artifact C options artifact tags) w).1
  unfolding verify_artifact raise
  verify_artifact-IsLife artifact [] w = no-IsLife (tests artifact) _ tt
  verify_artifact-IsLife artifact (tag ∷ tags) w =
      (Leaves-bind _ _ (Emits-create_vm artifact _) (no-IsLife (tests artifact)) λ guest.
          Leaves-bind _ _ Emits-check_canceled (no-IsLife (tests artifact))
            λ _. with_machine-IsLife guest (tests artifact)).at
        w
