-- ===== src/Effects/Success.antt =====
-- What a successful run says of its parts: the inversions of the ways to build an action.
use containerdisks.Base.{
  ◌≡◌, ◌≢◌, ◌∙◌, [], refl, ap, ◌++◌, append-nil, Bool, true, false, ◌⊎◌, inl, inr,
}
use containerdisks.Go.Result.{Error, Result, ok, err, panic}
use containerdisks.Effects.{
  Eff, continue, pure, ◌>>=◌, finally, on_error, raise, branch, handle_result,
}

pub ok-injective : {A : Type 0} {a b : A} → ok a ≡ ok b → a ≡ b
ok-injective h = cc

module _ {W E A B : Type 0} where
  -- Both parts succeeded, and the events are those of the one and then those of the other.
  abbrev pub Bound : Eff W E A → (A → Eff W E B) → W → B → Type 0
  Bound m f w b =
      (a : A) × ((m w).0 ≡ ok a)
      × ((f a (m w).2).0 ≡ ok b)
      × (((m >>= f) w).1 ≡ (m w).1 ++ (f a (m w).2).1)

  continue-ok :
      (r : Result A) (f : A → Eff W E B) (w : W) (b : B)
      → (continue r f w).0 ≡ ok b
      → (a : A) × (r ≡ ok a) × ((f a w).0 ≡ ok b) × ((continue r f w).1 ≡ (f a w).1)
  continue-ok (ok a) f w b h = (a, refl, h, refl)
  continue-ok (err e) f w b h = cc
  continue-ok (panic m) f w b h = cc

  pub bind-ok :
      (m : Eff W E A) (f : A → Eff W E B) (w : W) {b : B} → ((m >>= f) w).0 ≡ ok b → Bound m f w b
  unfolding ◌>>=◌
  bind-ok m f w {b} h =
      let (a, e, h', es) = continue-ok (m w).0 f (m w).2 b h in
      (a, e, h', ap (λ xs. (m w).1 ++ xs) es)

  -- A deferred call adds its events, and leaves the result.
  pub finally-result : (m : Eff W E A) (c : Eff W E B) (w : W) → ((finally m c) w).0 ≡ (m w).0
  unfolding finally
  finally-result m c w = refl

  pub finally-events :
      (m : Eff W E A) (c : Eff W E B) (w : W) → ((finally m c) w).1 ≡ (m w).1 ++ (c (m w).2).1
  unfolding finally
  finally-events m c w = refl

  -- If the first part fails, its events are all.
  pub bind-err :
      (m : Eff W E A) (f : A → Eff W E B) (w : W) {e : Error}
      → (m w).0 ≡ err e
      → (((m >>= f) w).0 ≡ err e) × (((m >>= f) w).1 ≡ (m w).1)
  unfolding ◌>>=◌
  bind-err m f w {e} h = (rw (h, ◌>>=◌) refl, rw (h, ◌>>=◌) (append-nil (m w).1))

module _ {W E A : Type 0} where
  -- An action that only changes the error succeeds as the action itself does.
  pub prefix-ok :
      (g : Error → Error) (m : Eff W E A) (w : W) {a : A}
      → ((on_error (λ e. raise (g e)) m) w).0 ≡ ok a
      → (m w).0 ≡ ok a
  unfolding on_error raise
  prefix-ok g m w {a} h = raised (m w).0 h
    where
      raised :
          (r : Result A)
          → (handle_result {W = W} {E = E} (λ e. raise (g e)) r (m w).2).0 ≡ ok a
          → r ≡ ok a
      raised (ok b) k = k
      raised (err e) k = cc
      raised (panic p) k = cc

  -- A success that no handling of an error gives is the action's own.
  pub on_error-ok :
      (f : Error → Eff W E A) (m : Eff W E A) (w : W) {a : A}
      → ((e : Error) (v : W) → (f e v).0 ≢ ok a)
      → ((on_error f m) w).0 ≡ ok a
      → ((m w).0 ≡ ok a) × (((on_error f m) w).1 ≡ (m w).1)
  unfolding on_error
  on_error-ok f m w {a} never h =
      let (e, es) = own (m w).0 h in (e, ap (λ xs. (m w).1 ++ xs) es ∙ append-nil (m w).1)
    where
      own :
          (r : Result A)
          → (handle_result f r (m w).2).0 ≡ ok a
          → (r ≡ ok a) × ((handle_result f r (m w).2).1 ≡ [])
      own (ok b) k = (k, refl)
      own (err e) k = absurd (never e (m w).2 k)
      own (panic p) k = absurd (cc k)

  -- A success is the action's own, or the handling gave it.
  pub on_error-cases :
      (f : Error → Eff W E A) (m : Eff W E A) (w : W) {a : A}
      → ((on_error f m) w).0 ≡ ok a
      → ((m w).0 ≡ ok a) ⊎ ((e : Error) × (v : W) × ((f e v).0 ≡ ok a))
  unfolding on_error
  on_error-cases f m w {a} h = from (m w).0 h
    where
      from :
          (r : Result A)
          → (handle_result f r (m w).2).0 ≡ ok a
          → (r ≡ ok a) ⊎ ((e : Error) × (v : W) × ((f e v).0 ≡ ok a))
      from (ok b) k = inl k
      from (err e) k = inr (e, (m w).2, k)
      from (panic p) k = absurd (cc k)

  -- Whose success it is, and the world behind it.
  pub on_error-result :
      (f : Error → Eff W E A) (m : Eff W E A) (w : W) {a : A}
      → ((on_error f m) w).0 ≡ ok a
      → (((m w).0 ≡ ok a) × (((on_error f m) w).2 ≡ (m w).2))
        ⊎ ((e : Error) × ((m w).0 ≡ err e)
            × ((f e (m w).2).0 ≡ ok a)
            × (((on_error f m) w).2 ≡ (f e (m w).2).2))
  unfolding on_error
  on_error-result f m w {a} h = from (m w).0 refl h
    where
      from :
          (r : Result A)
          → (m w).0 ≡ r
          → (handle_result f r (m w).2).0 ≡ ok a
          → (((m w).0 ≡ ok a) × ((handle_result f (m w).0 (m w).2).2 ≡ (m w).2))
            ⊎ ((e : Error) × ((m w).0 ≡ err e)
                × ((f e (m w).2).0 ≡ ok a)
                × ((handle_result f (m w).0 (m w).2).2 ≡ (f e (m w).2).2))
      from (ok b) q k = inl (q ∙ k, ap (λ r. (handle_result f r (m w).2).2) q)
      from (err e) q k = inr (e, q, k, ap (λ r. (handle_result f r (m w).2).2) q)
      from (panic p) q k = absurd (cc k)

  -- It also leaves the world as the action does.
  pub prefix-world :
      (g : Error → Error) (m : Eff W E A) (w : W) {a : A}
      → (m w).0 ≡ ok a
      → ((on_error (λ e. raise (g e)) m) w).2 ≡ (m w).2
  unfolding on_error raise
  prefix-world g m w {a} h = kept (m w).0 h
    where
      kept :
          (r : Result A)
          → r ≡ ok a
          → (handle_result {W = W} {E = E} (λ e. raise (g e)) r (m w).2).2 ≡ (m w).2
      kept (ok b) k = refl
      kept (err e) k = cc
      kept (panic p) k = cc

  -- A success that the second branch does not have is the first one's.
  pub branch_then :
      (b : Bool) (m n : Eff W E A) (w : W) {a : A}
      → ((branch b m n) w).0 ≡ ok a
      → ((n w).0 ≢ ok a)
      → (b ≡ true) × ((m w).0 ≡ ok a) × (((branch b m n) w).1 ≡ (m w).1)
  unfolding branch
  branch_then true m n w h k = (refl, h, refl)
  branch_then false m n w h k = absurd (k h)

  -- Which branch ran.
  pub branch-ok :
      (b : Bool) (m n : Eff W E A) (w : W) {a : A}
      → ((branch b m n) w).0 ≡ ok a
      → ((((branch b m n) w).1 ≡ (m w).1) × ((m w).0 ≡ ok a))
        ⊎ ((((branch b m n) w).1 ≡ (n w).1) × ((n w).0 ≡ ok a))
  unfolding branch
  branch-ok true m n w h = inl (refl, h)
  branch-ok false m n w h = inr (refl, h)

module _ {W E A B : Type 0} where
  -- A value made of that of an action: the errors and the world are the action's own.
  pub mapped-err :
      (g : A → B) (m : Eff W E A) (w : W) {e : Error}
      → ((m >>= λ a. pure (g a)) w).0 ≡ err e
      → (m w).0 ≡ err e
  unfolding ◌>>=◌ pure
  mapped-err g m w {e} h = own (m w).0 h
    where
      own :
          (r : Result A)
          → (continue {W = W} {E = E} r (λ a. pure (g a)) (m w).2).0 ≡ err e
          → r ≡ err e
      own (ok a) k = absurd (cc k)
      own (err x) k = cc k
      own (panic p) k = absurd (cc k)

  pub mapped-world : (g : A → B) (m : Eff W E A) (w : W) → ((m >>= λ a. pure (g a)) w).2 ≡ (m w).2
  unfolding ◌>>=◌ pure
  mapped-world g m w = own (m w).0
    where
      own : (r : Result A) → (continue {W = W} {E = E} r (λ a. pure (g a)) (m w).2).2 ≡ (m w).2
      own (ok a) = refl
      own (err x) = refl
      own (panic p) = refl

  -- The value of an action whose errors become values: it stems from the action or from an error.
  pub handled-cases :
      (f : Error → B) (g : A → B) (m : Eff W E A) (w : W) {b : B}
      → ((on_error (λ e. pure (f e)) (m >>= λ a. pure (g a))) w).0 ≡ ok b
      → ((a : A) × (g a ≡ b)) ⊎ ((e : Error) × (f e ≡ b))
  unfolding pure
  handled-cases f g m w {b} h = split (on_error-cases (λ e. pure (f e)) (m >>= λ a. pure (g a)) w h)
    where
      split :
          (((m >>= λ a. pure (g a)) w).0 ≡ ok b)
            ⊎ ((e : Error) × (v : W) × ((pure {W = W} {E = E} (f e) v).0 ≡ ok b))
          → ((a : A) × (g a ≡ b)) ⊎ ((e : Error) × (f e ≡ b))
      split (inl k) =
          let (a, e, k', es) = bind-ok m (λ a. pure (g a)) w k in inl (a, ok-injective k')
      split (inr (e, v, k)) = inr (e, ok-injective k)
