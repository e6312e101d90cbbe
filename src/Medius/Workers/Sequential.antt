-- ===== src/Medius/Workers/Sequential.antt =====
-- The pool against a loop that runs the entries one after the other.
use mathlib.Core.List.{Perm, perm_middle}
use mathlib.Core.List.Perm as Perm
use containerdisks.Base.{
  ℕ, ◌+◌, ◌<◌, ◌≡◌, refl, sym, subst, ap, ◌∙◌, Bool, Option, List, [], ◌∷◌, ◌++◌, append_assoc,
  append-nil, Text, length, concat_map, concat_map_snoc, concat_map-perm, arith,
}
use containerdisks.Go.Result.{Error}
use containerdisks.Api.{ArtifactResult}
use containerdisks.Medius.Workers.{
  WorkerResult, Pool, Step, Steps, stay, more, send, take, finish, leave, sent_result, sent_error,
  spawn, limit_workers, kept_jobs,
}
use containerdisks.Medius.Workers.Bounds.{spawn-IsBalanced, steps-IsBalanced}

-- `outcome` is what the function of the command gives for an entry.
module _ {Job : Type 0} (key : Job → Text)
    (outcome : Job → Option ArtifactResult × Option Error) where
  -- What the loop sends for an entry.
  abbrev pub results_of : Job → List WorkerResult
  results_of j = sent_result (key j) (outcome j).0

  abbrev pub errors_of : Job → List Error
  errors_of j = sent_error (outcome j).1

  abbrev pub Gives : Job → Option ArtifactResult → Option Error → Type 0
  Gives j result error = outcome j ≡ (result, error)

  -- All entries that a state knows.
  abbrev known : Pool Job → List Job
  known s = s.pending ++ (s.jobs ++ (s.busy ++ s.finished))

  -- The state is one of the loop that has run `finished`, up to the order.
  record IsLoop (kept : List Job) (s : Pool Job) : Type 0 where
    pub entries : Perm (known s) kept
    pub results : s.results ≡ concat_map results_of s.finished
    pub errors : s.errors ≡ concat_map errors_of s.finished

  results_of-gives :
      (j : Job) (result : Option ArtifactResult) (error : Option Error)
      → Gives j result error
      → (results_of j ≡ sent_result (key j) result) × (errors_of j ≡ sent_error error)
  results_of-gives j result error e = (
    ap (λ (o : Option ArtifactResult × Option Error). sent_result (key j) o.0) e,
    ap (λ (o : Option ArtifactResult × Option Error). sent_error o.1) e,
  )

  sent_perm :
      (rest jobs others : List Job) (j : Job)
      → Perm (rest ++ ((jobs ++ j ∷ []) ++ others)) (j ∷ (rest ++ (jobs ++ others)))
  sent_perm rest jobs others j =
      subst (λ l. Perm (rest ++ l) (j ∷ (rest ++ (jobs ++ others))))
        (sym (append_assoc jobs (j ∷ []) others))
        (Perm.trans (Perm.append_left rest (perm_middle jobs others))
          (perm_middle rest (jobs ++ others)))

  finished_perm :
      (before after finished : List Job) (j : Job)
      → Perm ((before ++ after) ++ (finished ++ j ∷ [])) ((before ++ j ∷ after) ++ finished)
  finished_perm before after finished j =
      Perm.trans (Perm.append_left (before ++ after) (perm_middle finished [])) (
        subst (λ l. Perm ((before ++ after) ++ (j ∷ l)) ((before ++ j ∷ after) ++ finished))
          (sym (append-nil finished))
          (Perm.trans (perm_middle (before ++ after) finished)
            (Perm.append_right finished (Perm.symm (perm_middle before after)))))

  step-IsLoop :
      (count : ℕ) (kept : List Job) (s t : Pool Job)
      → Step key Gives count s t
      → IsLoop kept s
      → IsLoop kept t
  step-IsLoop count kept s t (send j rest p room e) h = rw e (record {
    entries =
        Perm.trans (sent_perm rest s.jobs (s.busy ++ s.finished) j)
          (subst (λ l. Perm (l ++ (s.jobs ++ (s.busy ++ s.finished))) kept) p h.entries);
    results = h.results;
    errors = h.errors;
  })
  step-IsLoop count kept s t (take j rest n js i e) h = rw e (record {
    entries =
        Perm.trans (Perm.append_left s.pending (perm_middle rest (s.busy ++ s.finished)))
          (subst (λ l. Perm (s.pending ++ (l ++ (s.busy ++ s.finished))) kept) js h.entries);
    results = h.results;
    errors = h.errors;
  })
  step-IsLoop count kept s t (finish before after j r x canceled b ran room room' e) h =
      rw e (record {
        entries =
            Perm.trans
              (Perm.append_left s.pending
                (Perm.append_left s.jobs (finished_perm before after s.finished j)))
              (subst (λ l. Perm (s.pending ++ (s.jobs ++ (l ++ s.finished))) kept) b h.entries);
        results =
            ap (λ l. l ++ sent_result (key j) r) h.results
            ∙ (ap (λ l. concat_map results_of s.finished ++ l) (sym (results_of-gives j r x ran).0)
                ∙ sym (concat_map_snoc results_of s.finished j));
        errors =
            ap (λ l. l ++ sent_error x) h.errors
            ∙ (ap (λ l. concat_map errors_of s.finished ++ l) (sym (results_of-gives j r x ran).1)
                ∙ sym (concat_map_snoc errors_of s.finished j));
      })
  step-IsLoop count kept s t (leave n p js i e) h =
      rw e (record { entries = h.entries; results = h.results; errors = h.errors })

  steps-IsLoop :
      (count : ℕ) (kept : List Job) (s t : Pool Job)
      → Steps key Gives count s t
      → IsLoop kept s
      → IsLoop kept t
  steps-IsLoop count kept s _ stay h = h
  steps-IsLoop count kept s u (more {t} r x) h =
      step-IsLoop count kept t u x (steps-IsLoop count kept s t r h)

  spawn-IsLoop :
      (skip : Job → Bool) (workers : ℕ) (registry : List Job)
      → IsLoop (kept_jobs skip registry) (spawn skip workers registry)
  unfolding spawn
  spawn-IsLoop skip workers registry = record {
    entries =
        subst (λ l. Perm l (kept_jobs skip registry)) (sym (append-nil (kept_jobs skip registry)))
          (Perm.refl (kept_jobs skip registry));
    results = refl;
    errors = refl;
  }

  nothing_left : (js : List Job) → length js ≡ 0 → js ≡ []
  nothing_left [] h = refl
  nothing_left (j ∷ js) h = absurd (omega (arith, h))

  -- What a pool leaves that does the same as the loop, up to the order.
  pub record IsRunOf (kept : List Job) (s : Pool Job) : Type 0 where
    pub entries : Perm s.finished kept
    pub results : Perm s.results (concat_map results_of kept)
    pub errors : Perm s.errors (concat_map errors_of kept)

  complete :
      (kept : List Job) (s : Pool Job)
      → s.pending ≡ []
      → s.jobs ≡ []
      → s.busy ≡ []
      → IsLoop kept s
      → IsRunOf kept s
  complete kept s p js b h =
      let all : Perm s.finished kept =
        subst (λ l. Perm (l ++ s.finished) kept) b
          (subst (λ l. Perm (l ++ (s.busy ++ s.finished)) kept) js
            (subst (λ l. Perm (l ++ (s.jobs ++ (s.busy ++ s.finished))) kept) p h.entries)) in
      record {
        entries = all;
        results = rw h.results (concat_map-perm results_of s.finished kept all);
        errors = rw h.errors (concat_map-perm errors_of s.finished kept all);
      }

  -- If the function of the command gives each entry one outcome, then however the steps of the
  -- pool interleave, once all its workers have ended, at least one was started and none found the
  -- context canceled, the entries that were run, the results and the errors are those of a loop that
  -- runs what the focus keeps one entry after the other, each as often, up to their order.
  pub reachable-IsRunOf :
      (skip : Job → Bool) (workers : ℕ) (registry : List Job) (s : Pool Job)
      → Steps key Gives (length registry) (spawn skip workers registry) s
      → s.idle + length s.busy ≡ 0
      → s.stopped ≡ 0
      → 0 < limit_workers workers (length registry)
      → IsRunOf (kept_jobs skip registry) s
  reachable-IsRunOf skip workers registry s r ended calm staffed =
      let count = length registry in
      let h = steps-IsBalanced key Gives count _ _ _ s r (spawn-IsBalanced skip workers registry) in
      let none_left = h.quit_last (omega (arith, h.staff, ended, calm, staffed)) in
      complete _ s (nothing_left s.pending (omega (arith, none_left)))
        (nothing_left s.jobs (omega (arith, none_left)))
        (nothing_left s.busy (omega (arith, ended)))
        (steps-IsLoop count _ _ s r (spawn-IsLoop skip workers registry))
