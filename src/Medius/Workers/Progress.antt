-- ===== src/Medius/Workers/Progress.antt =====
-- The pool never waits for a channel, always has a step until all its workers have ended, and ends.
use containerdisks.Base.{
  ℕ, zero, suc, ◌+◌, ◌*◌, ◌<◌, ◌≤◌, ◌≡◌, refl, ap, Bool, true, false, Option, List, [], ◌∷◌, ◌++◌,
  Text, length, length-append, arith,
}
use containerdisks.Go.Result.{Error}
use containerdisks.Api.{ArtifactResult}
use containerdisks.Medius.Workers.{
  Pool, Step, Steps, stay, more, send, take, finish, leave, behind_run, spawn, limit_workers,
  kept_jobs,
}
use containerdisks.Medius.Workers.Bounds.{
  IsBalanced, steps-IsBalanced, spawn-IsBalanced, length-kept_jobs, length-sent_result,
  length-sent_error,
}

-- The channels hold no more than they can, and a send that is due has room.
pub record HasRoom {Job : Type 0} (count : ℕ) (s : Pool Job) : Type 0 where
  pub jobs_le : length s.jobs ≤ count
  pub results_le : length s.results ≤ count
  pub errors_le : length s.errors ≤ count
  pub job_room : 0 < length s.pending → length s.jobs < count
  pub run_room : 0 < length s.busy → (length s.results < count) × (length s.errors < count)

balanced-HasRoom :
    {Job : Type 0} (total workers count : ℕ) (s : Pool Job)
    → total ≤ count
    → IsBalanced total workers s
    → HasRoom count s
balanced-HasRoom total workers count s le h = record {
  jobs_le = omega (arith, le, h.entries);
  results_le = omega (arith, le, h.entries, h.results_le);
  errors_le = omega (arith, le, h.entries, h.errors_le);
  job_room = λ p. omega (arith, le, h.entries, p);
  run_room = λ b.
      (omega (arith, le, h.entries, h.results_le, b), omega (arith, le, h.entries, h.errors_le, b));
}

module _ {Job : Type 0} (key : Job → Text)
    (run : Job → Option ArtifactResult → Option Error → Type 0) (skip : Job → Bool) (workers : ℕ)
    (registry : List Job) where
  abbrev count : ℕ
  count = length registry

  reachable-IsBalanced :
      (s : Pool Job)
      → Steps key run count (spawn skip workers registry) s
      → IsBalanced (length (kept_jobs skip registry)) (limit_workers workers count) s
  reachable-IsBalanced s r =
      steps-IsBalanced key run count _ _ _ s r (spawn-IsBalanced skip workers registry)

  -- In every state that the pool reaches, each of the three channels holds no more than its
  -- capacity, an entry that is still to be sent finds room among the jobs, and a run that ends
  -- finds room for its result and its error.
  pub reachable-HasRoom :
      (s : Pool Job) → Steps key run count (spawn skip workers registry) s → HasRoom count s
  reachable-HasRoom s r =
      balanced-HasRoom _ _ count s (length-kept_jobs skip registry) (reachable-IsBalanced s r)

  next_busy :
      (s : Pool Job) (j : Job) (rest : List Job)
      → ((j : Job) → (result : Option ArtifactResult) × (error : Option Error) × run j result error)
      → HasRoom count s
      → s.busy ≡ j ∷ rest
      → (t : Pool Job) × Step key run count s t
  next_busy s j rest runs room b =
      let (result, error, ran) = runs j in
      let (r, e) = room.run_room (omega (arith, ap length b)) in
      (
        behind_run s rest j (key j) result error false,
        finish [] rest j result error false b ran
            (omega (arith, r, length-sent_result (key j) result))
            (omega (arith, e, length-sent_error error)) refl,
      )

  next_idle :
      (s : Pool Job) (n : ℕ) (pending jobs : List Job)
      → HasRoom count s
      → s.idle ≡ suc n
      → s.pending ≡ pending
      → s.jobs ≡ jobs
      → (t : Pool Job) × Step key run count s t
  next_idle s n pending (j ∷ jobs) room i p js =
      (record s { jobs = jobs; idle = n; busy = j ∷ s.busy }, take j jobs n js i refl)
  next_idle s n (j ∷ pending) [] room i p js = (
    record s { pending = pending; jobs = s.jobs ++ j ∷ [] },
    send j pending p (room.job_room (omega (arith, ap length p))) refl,
  )
  next_idle s n [] [] room i p js = (record s { idle = n; quit = suc s.quit }, leave n p js i refl)

  next :
      (s : Pool Job) (n : ℕ) (busy : List Job)
      → ((j : Job) → (result : Option ArtifactResult) × (error : Option Error) × run j result error)
      → HasRoom count s
      → s.idle ≡ n
      → s.busy ≡ busy
      → 0 < n + length busy
      → (t : Pool Job) × Step key run count s t
  next s n (j ∷ busy) runs room i b left = next_busy s j busy runs room b
  next s (suc n) [] runs room i b left = next_idle s n s.pending s.jobs room i refl refl
  next s zero [] runs room i b left = absurd (omega (arith, left))

  -- As long as a worker is left, the pool has a next step: it cannot deadlock. The function of the
  -- command is taken to return for every entry.
  pub reachable_next :
      (s : Pool Job)
      → ((j : Job) → (result : Option ArtifactResult) × (error : Option Error) × run j result error)
      → Steps key run count (spawn skip workers registry) s
      → 0 < s.idle + length s.busy
      → (t : Pool Job) × Step key run count s t
  reachable_next s runs r left = next s s.idle s.busy runs (reachable-HasRoom s r) refl refl left

  abbrev weight : Pool Job → ℕ
  weight s = 4 * length s.pending + 3 * length s.jobs + 2 * length s.busy + s.idle

  abbrev pub steps_of : {s t : Pool Job} → Steps key run count s t → ℕ
  steps_of stay = 0
  steps_of (more r x) = suc (steps_of r)

  idle_after :
      (canceled : Bool) (s : Pool Job) (others : List Job) (j : Job) (r : Option ArtifactResult)
      (e : Option Error)
      → (behind_run s others j (key j) r e canceled).idle ≤ suc s.idle
  idle_after true s others j r e = omega arith
  idle_after false s others j r e = omega arith

  step-weight : (s t : Pool Job) → Step key run count s t → weight t < weight s
  step-weight s t (send j rest p room e) =
      rw e (omega (arith, ap length p, length-append s.jobs (j ∷ [])))
  step-weight s t (take j rest n js i e) = rw e (omega (arith, ap length js, i))
  step-weight s t (finish before after j r x canceled b ran room room' e) = rw e (
      omega (
        arith,
        ap length b,
        length-append before (j ∷ after),
        length-append before after,
        idle_after canceled s (before ++ after) j r x,
      ))
  step-weight s t (leave n p js i e) = rw e (omega (arith, i))

  steps-weight : (s t : Pool Job) (r : Steps key run count s t) → steps_of r + weight t ≤ weight s
  steps-weight s _ stay = omega arith
  steps-weight s u (more {t} r x) = omega (arith, steps-weight s t r, step-weight t u x)

  limited : limit_workers workers count ≤ count
  unfolding limit_workers
  limited = ground arith

  spawn-weight : weight (spawn skip workers registry) ≤ 5 * count
  unfolding spawn
  spawn-weight = omega (arith, length-kept_jobs skip registry, limited)

  -- The pool ends: from its start it takes at most five steps for each entry of the registry,
  -- however the steps of the loop and of the workers interleave.
  pub spawn_steps :
      (s : Pool Job) (r : Steps key run count (spawn skip workers registry) s)
      → steps_of r ≤ 5 * count
  spawn_steps s r = omega (arith, steps-weight _ s r, spawn-weight)

  -- When all workers have ended, at least one was started and none found the context canceled,
  -- as many entries have been run as the focus keeps.
  pub reachable_all :
      (s : Pool Job)
      → Steps key run count (spawn skip workers registry) s
      → s.idle + length s.busy ≡ 0
      → s.stopped ≡ 0
      → 0 < limit_workers workers count
      → length s.finished ≡ length (kept_jobs skip registry)
  reachable_all s r ended calm staffed =
      let h = reachable-IsBalanced s r in
      let none_left = h.quit_last (omega (arith, h.staff, ended, calm, staffed)) in
      omega (arith, h.entries, ended, none_left)
