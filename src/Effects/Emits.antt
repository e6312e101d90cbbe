-- ===== src/Effects/Emits.antt =====
-- What holds of all the events of an action, one rule for each way to build an action.
use containerdisks.Base.{Bool, true, false, ◌≡◌, refl, List, All, All-append}
use containerdisks.Go.Result.{Error, Result, ok, err, panic}
use containerdisks.Effects.{
  branch, Eff, pure, raise, lift, call, call_ok, on_ok, continue, ◌>>=◌, finally, handle_result,
  on_error,
}

pub record Emits {W E A : Type 0} (P : E → Type 0) (m : Eff W E A) : Type 0 where
  pub at : (w : W) → All P (m w).1

module _ {W E A : Type 0} {P : E → Type 0} where
  pub Emits-pure : (a : A) → Emits P (pure {W = W} a)
  unfolding pure
  Emits-pure a = record { at = λ w. tt }

  pub Emits-raise : (e : Error) → Emits P (raise {W = W} {A = A} e)
  unfolding raise
  Emits-raise e = record { at = λ w. tt }

  pub Emits-lift : (r : Result A) → Emits P (lift {W = W} r)
  unfolding lift
  Emits-lift r = record { at = λ w. tt }

  pub Emits-call : (es : List E) (f : W → Result A × W) → All P es → Emits P (call es f)
  unfolding call
  Emits-call es f h = record { at = λ w. h }

  pub Emits-call_ok :
      (event : A → E) (f : W → Result A × W) → ((a : A) → P (event a)) → Emits P (call_ok event f)
  unfolding call_ok
  Emits-call_ok event f h = record { at = λ w. let (r, w') = f w in holds r }
    where
      holds : (r : Result A) → All P (on_ok event r)
      holds (ok a) = (h a, tt)
      holds (err e) = tt
      holds (panic m) = tt

  -- Each branch may use the outcome of the test.
  pub Emits-branch :
      (b : Bool) (m n : Eff W E A)
      → (b ≡ true → Emits P m)
      → (b ≡ false → Emits P n)
      → Emits P (branch b m n)
  unfolding branch
  Emits-branch true m n km kn = km refl
  Emits-branch false m n km kn = kn refl

module _ {W E A B : Type 0} {P : E → Type 0} where
  Emits-continue :
      (r : Result A) (f : A → Eff W E B)
      → ((a : A) → Emits P (f a))
      → (w : W) → All P (continue r f w).1
  Emits-continue (ok a) f h w = (h a).at w
  Emits-continue (err e) f h w = tt
  Emits-continue (panic m) f h w = tt

  pub Emits-bind :
      (m : Eff W E A) (f : A → Eff W E B)
      → Emits P m
      → ((a : A) → Emits P (f a))
      → Emits P (m >>= f)
  unfolding ◌>>=◌
  Emits-bind m f hm hf = record {
    at = λ w. let (r, es, w') = m w in All-append P es _ (hm.at w) (Emits-continue r f hf w');
  }

  pub Emits-finally :
      (m : Eff W E A) (c : Eff W E B) → Emits P m → Emits P c → Emits P (finally m c)
  unfolding finally
  Emits-finally m c hm hc = record {
    at = λ w. let (r, es, w') = m w in All-append P es _ (hm.at w) (hc.at w');
  }

module _ {W E A : Type 0} {P : E → Type 0} where
  Emits-handle :
      (f : Error → Eff W E A) (r : Result A)
      → ((e : Error) → Emits P (f e))
      → (w : W) → All P (handle_result f r w).1
  Emits-handle f (ok a) h w = tt
  Emits-handle f (err e) h w = (h e).at w
  Emits-handle f (panic m) h w = tt

  pub Emits-on_error :
      (f : Error → Eff W E A) (m : Eff W E A)
      → ((e : Error) → Emits P (f e))
      → Emits P m
      → Emits P (on_error f m)
  unfolding on_error
  Emits-on_error f m hf hm = record {
    at = λ w. let (r, es, w') = m w in All-append P es _ (hm.at w) (Emits-handle f r hf w');
  }

pub ruleset emits_rules = (
  Emits-pure, Emits-raise, Emits-lift, Emits-call, Emits-call_ok, Emits-branch, Emits-bind,
  Emits-finally, Emits-on_error,
)
