-- ===== src/Effects.antt =====
-- Calls that change the world, may fail, and leave a trace of events.
pub mod Emits
pub mod Success
pub mod Leaves
use containerdisks.Base.{Bool, true, false, List, [], ◌∷◌, ◌++◌}
use containerdisks.Go.Result.{Error, Result, ok, err, panic}

-- Of the result, the events in their order, and the world behind them.
abbrev pub Eff : Type 0 → Type 0 → Type 0 → Type 0
Eff W E A = W → Result A × List E × W

-- The event of a call that leaves one only if it succeeds.
abbrev pub on_ok : {E A : Type 0} → (A → E) → Result A → List E
on_ok event (ok a) = event a ∷ []
on_ok event (err e) = []
on_ok event (panic m) = []

module _ {W E A : Type 0} where
  unfoldable pub pure : A → Eff W E A
  pure a w = (ok a, [], w)

  unfoldable pub raise : Error → Eff W E A
  raise e w = (err e, [], w)

  unfoldable pub lift : Result A → Eff W E A
  lift r w = (r, [], w)

  -- A test between two actions.
  unfoldable pub branch : Bool → Eff W E A → Eff W E A → Eff W E A
  branch true m n = m
  branch false m n = n

  -- A call of the outside, with the events that it stands for.
  unfoldable pub call : List E → (W → Result A × W) → Eff W E A
  call es f w = let (r, w') = f w in (r, es, w')

  unfoldable pub call_ok : (A → E) → (W → Result A × W) → Eff W E A
  call_ok event f w = let (r, w') = f w in (r, on_ok event r, w')

module _ {W E A B : Type 0} where
  abbrev pub continue : Result A → (A → Eff W E B) → Eff W E B
  continue (ok a) f w = f a w
  continue (err e) f w = (err e, [], w)
  continue (panic m) f w = (panic m, [], w)

  infixl 5 ◌>>=◌ ◌>>◌
  -- opening this opens the basic actions too
  unfoldable pub ◌>>=◌ : Eff W E A → (A → Eff W E B) → Eff W E B
  unfolding pure raise lift branch call call_ok
  ◌>>=◌ m f w =
      let (r, es, w') = m w in let (r', es', w'') = continue r f w' in (r', es ++ es', w'')

  abbrev pub ◌>>◌ : Eff W E A → Eff W E B → Eff W E B
  m >> k = m >>= λ _. k

  -- A deferred call runs whatever the end of the body; its own result is dropped.
  unfoldable pub finally : Eff W E A → Eff W E B → Eff W E A
  finally m cleanup w =
      let (r, es, w') = m w in let (_, es', w'') = cleanup w' in (r, es ++ es', w'')

module _ {W E A : Type 0} where
  -- What an error becomes; a value and a panic stay.
  abbrev handle_result : (Error → Eff W E A) → Result A → Eff W E A
  handle_result f (ok a) w = (ok a, [], w)
  handle_result f (err e) w = f e w
  handle_result f (panic m) w = (panic m, [], w)

  unfoldable pub on_error : (Error → Eff W E A) → Eff W E A → Eff W E A
  on_error f m w =
      let (r, es, w') = m w in let (r', es', w'') = handle_result f r w' in (r', es ++ es', w'')
