-- ===== src/Medius/Workers/Sent.antt =====
-- What holds of all the results that the workers send.
use containerdisks.Base.{ℕ, Bool, Option, none, some, List, Text, All, All-append}
use containerdisks.Go.Result.{Error}
use containerdisks.Api.{ArtifactResult}
use containerdisks.Medius.Workers.{
  WorkerResult, Pool, Step, Steps, stay, more, send, take, finish, leave, sent_result, spawn,
}

module _ {Job : Type 0} (key : Job → Text)
    (run : Job → Option ArtifactResult → Option Error → Type 0) (count : ℕ)
    (P : Text → ArtifactResult → Type 0)
    (gives : (j : Job) (v : ArtifactResult) (e : Option Error)
      → run j (some v) e
      → P (key j) v) where
  abbrev pub AllSent : List WorkerResult → Type 0
  AllSent = All (λ (r : WorkerResult). P r.key r.value)

  sent-AllSent :
      (j : Job) (r : Option ArtifactResult) (e : Option Error)
      → run j r e
      → AllSent (sent_result (key j) r)
  sent-AllSent j none e ran = tt
  sent-AllSent j (some v) e ran = (gives j v e ran, tt)

  step-AllSent : (s t : Pool Job) → Step key run count s t → AllSent s.results → AllSent t.results
  step-AllSent s t (send j rest p room e) h = rw e h
  step-AllSent s t (take j rest n js i e) h = rw e h
  step-AllSent s t (finish before after j r x canceled b ran room room' e) h = rw e (
      All-append (λ (v : WorkerResult). P v.key v.value) s.results (sent_result (key j) r) h
        (sent-AllSent j r x ran))
  step-AllSent s t (leave n p js i e) h = rw e h

  steps-AllSent : (s t : Pool Job) → Steps key run count s t → AllSent s.results → AllSent t.results
  steps-AllSent s _ stay h = h
  steps-AllSent s u (more {t} r x) h = step-AllSent t u x (steps-AllSent s t r h)

  -- Of every state that the pool reaches.
  pub reachable-AllSent :
      (skip : Job → Bool) (workers : ℕ) (registry : List Job) (s : Pool Job)
      → Steps key run count (spawn skip workers registry) s
      → AllSent s.results
  unfolding spawn
  reachable-AllSent skip workers registry s r = steps-AllSent _ s r tt
