-- ===== src/Tests/WorkersTests.antt =====
-- cmd/medius/images/common.go: one worker, one entry.
use containerdisks.Base.{
  ℕ, ◌*◌, ◌≤◌, ◌≡◌, refl, Bool, false, Option, none, some, [], ◌∷◌, Text, codes, length, arith,
}
use containerdisks.Go.Result.{Error, plain, is_canceled}
use containerdisks.Api.{ArtifactResult}
use containerdisks.Medius.Workers.{
  Pool, Step, Steps, stay, more, send, take, finish, leave, spawn, limit_workers, kept_jobs,
  first_error, stage_push,
}
use containerdisks.Medius.Workers.Progress.{
  HasRoom, reachable-HasRoom, reachable_next, spawn_steps, steps_of, reachable_all,
}

abbrev key : ℕ → Text
key j = codes "fedora:43"

abbrev skip : ℕ → Bool
skip j = false

abbrev AnyOutcome : ℕ → Option ArtifactResult → Option Error → Type 0
AnyOutcome j result error = Unit

abbrev pushed : ArtifactResult
pushed = record { tags = []; stage = stage_push; err = codes "timeout" }

abbrev start : Pool ℕ
start = record {
  pending = 7 ∷ [];
  jobs = [];
  idle = 1;
  busy = [];
  finished = [];
  results = [];
  errors = [];
  quit = 0;
  stopped = 0;
}

abbrev sent : Pool ℕ
sent = record start { pending = []; jobs = 7 ∷ [] }

abbrev taken : Pool ℕ
taken = record sent { jobs = []; idle = 0; busy = 7 ∷ [] }

abbrev done : Pool ℕ
done = record taken {
  busy = [];
  idle = 1;
  finished = 7 ∷ [];
  results = record { key = codes "fedora:43"; value = pushed } ∷ [];
  errors = plain (codes "timeout") ∷ [];
}

abbrev ended : Pool ℕ
ended = record done { idle = 0; quit = 1 }

started : spawn skip 4 (7 ∷ []) ≡ start
unfolding spawn
started = refl

abbrev trace : Steps key AnyOutcome 1 (spawn skip 4 (7 ∷ [])) ended
unfolding spawn is_canceled
trace =
    more
      (more (more (more stay (send 7 [] refl (omega arith) refl)) (take 7 [] 0 refl refl refl)) (
        finish [] [] 7 (some pushed) (some (plain (codes "timeout"))) false refl tt (omega arith)
          (omega arith) refl))
      (leave 0 refl refl refl refl)

reported : first_error ended.errors ≡ some (plain (codes "timeout"))
unfolding first_error
reported = refl

reachable-HasRoom_example : HasRoom 1 ended
reachable-HasRoom_example = reachable-HasRoom key AnyOutcome skip 4 (7 ∷ []) ended trace

reachable_next_example : (t : Pool ℕ) × Step key AnyOutcome 1 (spawn skip 4 (7 ∷ [])) t
unfolding spawn
reachable_next_example =
    reachable_next key AnyOutcome skip 4 (7 ∷ []) (spawn skip 4 (7 ∷ [])) (λ j. (none, none, tt))
      stay (omega arith)

spawn_steps_example : steps_of key AnyOutcome skip 4 (7 ∷ []) trace ≤ 5 * 1
spawn_steps_example = spawn_steps key AnyOutcome skip 4 (7 ∷ []) ended trace

reachable_all_example : length ended.finished ≡ length (kept_jobs skip (7 ∷ []))
unfolding limit_workers
reachable_all_example =
    reachable_all key AnyOutcome skip 4 (7 ∷ []) ended trace (omega arith) (omega arith)
      (omega arith)
