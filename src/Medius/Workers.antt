-- ===== src/Medius/Workers.antt =====
-- cmd/medius/images/common.go: `spawnWorkers`, the pool of workers over the entries of the registry,
-- as steps of a state. The goroutines differ in nothing, so the state counts them.
pub mod Bounds
pub mod Progress
pub mod Sequential
pub mod Sent
use containerdisks.Base.{
  ℕ, suc, ◌+◌, ◌<◌, ◌≡◌, Bool, true, false, Option, none, some, List, [], ◌∷◌, ◌++◌, Text, codes,
  length, ltb, if◌then◌else◌,
}
use containerdisks.Go.Result.{Error, is_canceled}
use containerdisks.Api.{ArtifactResult}

abbrev pub stage_push : Text
stage_push = codes "push"

abbrev pub stage_verify : Text
stage_verify = codes "verify"

abbrev pub stage_promote : Text
stage_promote = codes "promote"

-- The result of an entry and the error, each of which may be missing.
abbrev pub Outcome : Type 0
Outcome = Option ArtifactResult × Option Error

pub record WorkerResult : Type 0 where
  pub key : Text
  pub value : ArtifactResult

-- `pending` are the entries that the loop has not sent, `jobs`, `results` and `errors` what the
-- channels hold. A worker is idle, or runs one of the entries of `busy`, or has ended because the
-- jobs did (`quit`) or because the context is canceled (`stopped`). `finished` are the entries that
-- have been run.
pub record Pool (Job : Type 0) : Type 0 where
  pub pending : List Job
  pub jobs : List Job
  pub idle : ℕ
  pub busy : List Job
  pub finished : List Job
  pub results : List WorkerResult
  pub errors : List Error
  pub quit : ℕ
  pub stopped : ℕ

-- More workers than entries are not started. With a negative number the program panics in wg.Add.
unfoldable pub limit_workers : ℕ → ℕ → ℕ
limit_workers workers count = if ltb count workers then count else workers

-- The loop over the registry sends what the focus keeps.
unfoldable pub kept_jobs : {Job : Type 0} → (Job → Bool) → List Job → List Job
kept_jobs skip [] = []
kept_jobs skip (j ∷ js) = let rest = kept_jobs skip js in if skip j then rest else j ∷ rest

unfoldable pub spawn : {Job : Type 0} → (Job → Bool) → ℕ → List Job → Pool Job
unfolding limit_workers kept_jobs
spawn skip workers registry = record {
  pending = kept_jobs skip registry;
  jobs = [];
  idle = limit_workers workers (length registry);
  busy = [];
  finished = [];
  results = [];
  errors = [];
  quit = 0;
  stopped = 0;
}

-- What a finished run sends to the channel of the results, and to that of the errors.
abbrev pub sent_result : Text → Option ArtifactResult → List WorkerResult
sent_result key none = []
sent_result key (some value) = record { key = key; value = value } ∷ []

abbrev pub sent_error : Option Error → List Error
sent_error none = []
sent_error (some e) = if is_canceled e then [] else e ∷ []

-- The state behind a run of `j`, which gave a result and an error, or none of them. A worker that
-- finds the context canceled ends.
abbrev pub behind_run :
    {Job : Type 0}
    → Pool Job
    → List Job
    → Job
    → Text
    → Option ArtifactResult
    → Option Error
    → Bool
    → Pool Job
behind_run s others j key result error canceled = record s {
  busy = others;
  finished = s.finished ++ j ∷ [];
  results = s.results ++ sent_result key result;
  errors = s.errors ++ sent_error error;
  idle = if canceled then s.idle else suc s.idle;
  stopped = if canceled then suc s.stopped else s.stopped;
}

-- One step of the loop or of a worker. `count` is the capacity of the three channels: a send waits
-- until there is room. `run` tells what the function of the command may give for an entry.
module _ {Job : Type 0} (key : Job → Text)
    (run : Job → Option ArtifactResult → Option Error → Type 0) (count : ℕ) where
  pub data Step (s t : Pool Job) : Type 0 where
    send :
        (j : Job) (rest : List Job)
        → s.pending ≡ j ∷ rest
        → length s.jobs < count
        → t ≡ record s { pending = rest; jobs = s.jobs ++ j ∷ [] }
        → Step s t
    take :
        (j : Job) (rest : List Job) (n : ℕ)
        → s.jobs ≡ j ∷ rest
        → s.idle ≡ suc n
        → t ≡ record s { jobs = rest; idle = n; busy = j ∷ s.busy }
        → Step s t
    finish :
        (before after : List Job) (j : Job) (result : Option ArtifactResult) (error : Option Error)
        (canceled : Bool)
        → s.busy ≡ before ++ j ∷ after
        → run j result error
        → length s.results + length (sent_result (key j) result) < suc count
        → length s.errors + length (sent_error error) < suc count
        → t ≡ behind_run s (before ++ after) j (key j) result error canceled
        → Step s t
    leave :
        (n : ℕ)
        → s.pending ≡ []
        → s.jobs ≡ []
        → s.idle ≡ suc n
        → t ≡ record s { idle = n; quit = suc s.quit }
        → Step s t

  pub data Steps (s : Pool Job) : Pool Job → Type 0 where
    stay : Steps s s
    more : {t u : Pool Job} → Steps s t → Step t u → Steps s u

-- What `spawnWorkers` returns of the errors: the first one of the channel.
unfoldable pub first_error : List Error → Option Error
first_error [] = none
first_error (e ∷ es) = some e

-- Whether the loop over the registry sends any entry.
unfoldable pub focus_matched : {Job : Type 0} → (Job → Bool) → List Job → Bool
focus_matched skip [] = false
focus_matched skip (j ∷ js) = let rest = focus_matched skip js in if skip j then rest else true

-- What `spawnWorkers` returns. The channel of the results is closed, so that a range over it ends.
pub record PoolEnd : Type 0 where
  pub matched : Bool
  pub results : List WorkerResult
  pub error : Option Error

unfoldable pub pool_end : {Job : Type 0} → (Job → Bool) → List Job → Pool Job → PoolEnd
unfolding focus_matched first_error
pool_end skip registry s = record {
  matched = focus_matched skip registry;
  results = s.results;
  error = first_error s.errors;
}
