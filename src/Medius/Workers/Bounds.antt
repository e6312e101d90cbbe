-- ===== src/Medius/Workers/Bounds.antt =====
-- What every reachable state of the pool keeps.
use containerdisks.Base.{
  ℕ, suc, ◌+◌, ◌<◌, ◌≤◌, ◌≡◌, ap, ◌∙◌, Bool, true, false, Option, none, some, List, [], ◌∷◌, ◌++◌,
  Text, length, length-append, arith, if◌then◌else◌,
}
use containerdisks.Go.Result.{Error, is_canceled}
use containerdisks.Api.{ArtifactResult}
use containerdisks.Medius.Workers.{
  Pool, Step, Steps, stay, more, send, take, finish, leave, sent_result, sent_error, behind_run,
  spawn, limit_workers, kept_jobs,
}

-- No entry is lost or run twice, no worker is lost, a run sends one result and one error at most,
-- and a worker quits only when there are no more entries.
pub record IsBalanced {Job : Type 0} (total workers : ℕ) (s : Pool Job) : Type 0 where
  pub entries : length s.pending + length s.jobs + length s.busy + length s.finished ≡ total
  pub staff : s.idle + length s.busy + s.quit + s.stopped ≡ workers
  pub results_le : length s.results ≤ length s.finished
  pub errors_le : length s.errors ≤ length s.finished
  pub quit_last : 0 < s.quit → length s.pending + length s.jobs ≡ 0

pub length-sent_result : (key : Text) (r : Option ArtifactResult) → length (sent_result key r) ≤ 1
length-sent_result key none = omega arith
length-sent_result key (some v) = omega arith

pub length-sent_error : (e : Option Error) → length (sent_error e) ≤ 1
length-sent_error none = omega arith
length-sent_error (some e) = capped (is_canceled e) e
  where
    capped : (b : Bool) (x : Error) → length (if b then [] else x ∷ []) ≤ 1
    capped true x = omega arith
    capped false x = omega arith

module _ {Job : Type 0} (key : Job → Text)
    (run : Job → Option ArtifactResult → Option Error → Type 0) (count : ℕ)
    (total workers : ℕ) where
  idle_behind :
      (canceled : Bool) (s : Pool Job) (others : List Job) (j : Job) (r : Option ArtifactResult)
      (e : Option Error)
      → (behind_run s others j (key j) r e canceled).idle
          + (behind_run s others j (key j) r e canceled).stopped
        ≡ suc (s.idle + s.stopped)
  idle_behind true s others j r e = omega arith
  idle_behind false s others j r e = omega arith

  finish-IsBalanced :
      (s : Pool Job) (before after : List Job) (j : Job) (r : Option ArtifactResult)
      (e : Option Error) (canceled : Bool)
      → s.busy ≡ before ++ j ∷ after
      → IsBalanced total workers s
      → IsBalanced total workers (behind_run s (before ++ after) j (key j) r e canceled)
  finish-IsBalanced s before after j r e canceled b h =
      let l = ap length b ∙ length-append before (j ∷ after) in
      record {
        entries =
            omega
              (arith, h.entries, l, length-append before after, length-append s.finished (j ∷ []));
        staff = omega (
          arith,
          h.staff,
          l,
          length-append before after,
          idle_behind canceled s (before ++ after) j r e,
        );
        results_le = omega (
          arith,
          h.results_le,
          length-append s.finished (j ∷ []),
          length-append s.results (sent_result (key j) r),
          length-sent_result (key j) r,
        );
        errors_le = omega (
          arith,
          h.errors_le,
          length-append s.finished (j ∷ []),
          length-append s.errors (sent_error e),
          length-sent_error e,
        );
        quit_last = λ q. h.quit_last q;
      }

  step-IsBalanced :
      (s t : Pool Job)
      → Step key run count s t
      → IsBalanced total workers s
      → IsBalanced total workers t
  step-IsBalanced s t (send j rest p room e) h = rw e (record {
    entries = omega (arith, h.entries, ap length p, length-append s.jobs (j ∷ []));
    staff = h.staff;
    results_le = h.results_le;
    errors_le = h.errors_le;
    quit_last = λ q. omega (arith, h.quit_last q, ap length p);
  })
  step-IsBalanced s t (take j rest n js i e) h = rw e (record {
    entries = omega (arith, h.entries, ap length js);
    staff = omega (arith, h.staff, i);
    results_le = h.results_le;
    errors_le = h.errors_le;
    quit_last = λ q. omega (arith, h.quit_last q, ap length js);
  })
  step-IsBalanced s t (finish before after j r x canceled b ran room room' e) h =
      rw e (finish-IsBalanced s before after j r x canceled b h)
  step-IsBalanced s t (leave n p js i e) h = rw e (record {
    entries = h.entries;
    staff = omega (arith, h.staff, i);
    results_le = h.results_le;
    errors_le = h.errors_le;
    quit_last = λ q. omega (arith, ap length p, ap length js);
  })

  pub steps-IsBalanced :
      (s t : Pool Job)
      → Steps key run count s t
      → IsBalanced total workers s
      → IsBalanced total workers t
  steps-IsBalanced s _ stay h = h
  steps-IsBalanced s u (more {t} r x) h = step-IsBalanced t u x (steps-IsBalanced s t r h)

pub length-kept_jobs :
    {Job : Type 0} (skip : Job → Bool) (js : List Job) → length (kept_jobs skip js) ≤ length js
unfolding kept_jobs
length-kept_jobs skip [] = omega arith
length-kept_jobs skip (j ∷ js) = ground (arith, length-kept_jobs skip js)

pub spawn-IsBalanced :
    {Job : Type 0} (skip : Job → Bool) (n : ℕ) (registry : List Job)
    → IsBalanced
        (length (kept_jobs skip registry))
        (limit_workers n (length registry))
        (spawn skip n registry)
unfolding spawn
spawn-IsBalanced skip n registry = record {
  entries = omega arith;
  staff = omega arith;
  results_le = omega arith;
  errors_le = omega arith;
  quit_last = λ q. omega (arith, q);
}
