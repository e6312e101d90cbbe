-- ===== src/Guests/Retry.antt =====
-- How often a test of a machine is tried.
use containerdisks.Base.{ℕ, ◌≤◌, ◌≡◌, true, List, length, ◌⊎◌}
use containerdisks.Go.Result.{Error, Result, ok, err}
use containerdisks.Effects.{Eff}
use containerdisks.Guests.{Event, Kubevirt, retry_duration}

module _ (K : Kubevirt) where
  open K use {World}

  -- A success has its ground: a round succeeded, or the context had ended.
  abbrev pub IsGrounded : Eff World Event (Unit {0}) → Type 0
  IsGrounded test =
      ((w : World) × ((test w).0 ≡ ok tt))
      ⊎ ((w : World) × ((K.done_or_wait retry_duration w).0 ≡ true))

  -- At most `n` rounds, and all of them if the last error is what remains.
  pub record IsRetried (n : ℕ) (test : Eff World Event (Unit {0})) (r : Result (Unit {0}))
      (es : List Event) : Type 0 where
    pub at_most : length es ≤ n
    pub all_tried : (e : Error) → r ≡ err e → length es ≡ n
    pub grounded : r ≡ ok tt → IsGrounded test
