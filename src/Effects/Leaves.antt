-- ===== src/Effects/Leaves.antt =====
-- What holds of the result and the events of an action, whatever the world: a postcondition.
use containerdisks.Base.{
  ◌≡◌, refl, sym, subst, Bool, true, false, List, [], ◌∷◌, ◌++◌, append-nil, All, Text, ◌⊎◌, inl,
  inr,
}
use containerdisks.Go.Result.{Error, Result, ok, err, panic}
use containerdisks.Effects.{
  Eff, raise, pure, lift, call, call_ok, on_ok, branch, continue, ◌>>=◌, on_error, finally,
  handle_result,
}
use containerdisks.Effects.Emits.{Emits}

module _ {W E A : Type 0} where
  pub record Leaves (T : Result A → List E → Type 0) (m : Eff W E A) : Type 0 where
    pub at : (w : W) → T (m w).0 (m w).1

-- An action that leaves no event.
abbrev pub IsNothing : {E : Type 0} → E → Type 0
IsNothing e = ⊥

pub events_nothing : {E : Type 0} (es : List E) → All (IsNothing {E = E}) es → es ≡ []
events_nothing [] h = refl
events_nothing (e ∷ es) h = absurd h.0

-- A result that ends a chain.
abbrev pub IsStop : {A : Type 0} → Result A → Type 0
IsStop (ok a) = ⊥
IsStop (err e) = Unit
IsStop (panic m) = Unit

module _ {W E A : Type 0} {T : Result A → List E → Type 0} where
  pub Leaves-branch :
      (b : Bool) (m n : Eff W E A) → Leaves T m → Leaves T n → Leaves T (branch b m n)
  unfolding branch
  Leaves-branch true m n hm hn = hm
  Leaves-branch false m n hm hn = hn

module _ {W E A B : Type 0} {T : Result B → List E → Type 0} where
  continued :
      (r : Result A) (f : A → Eff W E B) (w : W)
      → ((s : Result B) → IsStop s → T s [])
      → ((a : A) → Leaves T (f a))
      → T (continue r f w).0 (continue r f w).1
  continued (ok a) f w stops h = (h a).at w
  continued (err e) f w stops h = stops (err e) tt
  continued (panic m) f w stops h = stops (panic m) tt

  -- A part that leaves no event may end the chain; else the rest decides.
  pub Leaves-bind :
      (m : Eff W E A) (f : A → Eff W E B)
      → Emits IsNothing m
      → ((s : Result B) → IsStop s → T s [])
      → ((a : A) → Leaves T (f a))
      → Leaves T (m >>= f)
  unfolding ◌>>=◌
  Leaves-bind m f hm stops h = record {
    at = λ w. rw (events_nothing (m w).1 (hm.at w)) (continued (m w).0 f (m w).2 stops h);
  }

module _ {W E A : Type 0} where
  -- What a call of the outside leaves.
  pub Leaves-call :
      (es : List E) (f : W → Result A × W)
      → Leaves (λ r fs. (fs ≡ es) × ((w : W) × ((f w).0 ≡ r))) (call es f)
  unfolding call
  Leaves-call es f = record { at = λ w. (refl, (w, refl)) }

  pub Leaves-lift : (r : Result A) → Leaves (λ s es. (es ≡ []) × (s ≡ r)) (lift {W = W} {E = E} r)
  unfolding lift
  Leaves-lift r = record { at = λ w. (refl, refl) }

  pub Leaves-pure : (a : A) → Leaves (λ s es. (es ≡ []) × (s ≡ ok a)) (pure {W = W} {E = E} a)
  unfolding pure
  Leaves-pure a = record { at = λ w. (refl, refl) }

  pub Leaves-raise :
      (e : Error) → Leaves (λ s es. (es ≡ []) × (s ≡ err e)) (raise {W = W} {E = E} {A = A} e)
  unfolding raise
  Leaves-raise e = record { at = λ w. (refl, refl) }

module _ {W E A : Type 0} {S T : Result A → List E → Type 0} where
  pub Leaves-imp :
      (m : Eff W E A) → ((r : Result A) (es : List E) → S r es → T r es) → Leaves S m → Leaves T m
  Leaves-imp m f h = record { at = λ w. f (m w).0 (m w).1 (h.at w) }

  -- A change of the error only.
  pub Leaves-on_error :
      (g : Error → Error) (m : Eff W E A)
      → Leaves S m
      → ((a : A) (es : List E) → S (ok a) es → T (ok a) es)
      → ((e : Error) (es : List E) → S (err e) es → T (err (g e)) es)
      → ((p : Text) (es : List E) → S (panic p) es → T (panic p) es)
      → Leaves T (on_error (λ e. raise (g e)) m)
  unfolding on_error raise
  Leaves-on_error g m h good bad ugly = record {
    at = λ w. changed (m w).0 (m w).1 (m w).2 (h.at w);
  }
    where
      changed :
          (r : Result A) (es : List E) (w : W)
          → S r es
          → T
              (handle_result {W = W} {E = E} (λ e. raise (g e)) r w).0
              (es ++ (handle_result {W = W} {E = E} (λ e. raise (g e)) r w).1)
      changed (ok a) es w k = rw (append-nil es) (good a es k)
      changed (err e) es w k = rw (append-nil es) (bad e es k)
      changed (panic p) es w k = rw (append-nil es) (ugly p es k)

module _ {W E A B : Type 0} {S : Result A → List E → Type 0} {T : Result B → List E → Type 0} where
  -- A part that ends the chain, or one with its events before those of the rest.
  pub Leaves-seq :
      (m : Eff W E A) (f : A → Eff W E B)
      → Leaves S m
      → ((e : Error) (es : List E) → S (err e) es → T (err e) es)
      → ((p : Text) (es : List E) → S (panic p) es → T (panic p) es)
      → ((a : A) (es : List E) → S (ok a) es → Leaves (λ r fs. T r (es ++ fs)) (f a))
      → Leaves T (m >>= f)
  unfolding ◌>>=◌
  Leaves-seq m f h bad ugly rest = record { at = λ w. along (m w).0 (m w).1 (m w).2 (h.at w) }
    where
      along :
          (r : Result A) (es : List E) (w : W)
          → S r es
          → T (continue r f w).0 (es ++ (continue r f w).1)
      along (ok a) es w k = (rest a es k).at w
      along (err e) es w k = rw (append-nil es) (bad e es k)
      along (panic p) es w k = rw (append-nil es) (ugly p es k)

  -- A deferred call adds its events.
  pub Leaves-finally :
      {R : Result A → List E → Type 0} (m : Eff W E A) (c : Eff W E B)
      → Leaves S m
      → Leaves T c
      → ((r : Result A) (s : Result B) (es fs : List E) → S r es → T s fs → R r (es ++ fs))
      → Leaves R (finally m c)
  unfolding finally
  Leaves-finally m c h k both = record {
    at = λ w. both (m w).0 (c (m w).2).0 (m w).1 (c (m w).2).1 (h.at w) (k.at (m w).2);
  }

-- No event, and a property of the value, if there is one.
abbrev pub Quiet : {E A : Type 0} → (A → Type 0) → Result A → List E → Type 0
Quiet {A = A} P r es = (es ≡ []) × ((a : A) → r ≡ ok a → P a)

module _ {W E A : Type 0} {P : A → Type 0} where
  pub Quiet-call :
      (f : W → Result A × W)
      → ((w : W) (a : A) → (f w).0 ≡ ok a → P a)
      → Leaves (Quiet {E = E} P) (call [] f)
  unfolding call
  Quiet-call f h = record { at = λ w. (refl, λ a k. h w a k) }

  pub Quiet-lift :
      (r : Result A) → ((a : A) → r ≡ ok a → P a) → Leaves (Quiet {E = E} P) (lift {W = W} r)
  unfolding lift
  Quiet-lift r h = record { at = λ w. (refl, h) }

  pub Quiet-pure : (a : A) → P a → Leaves (Quiet {E = E} P) (pure {W = W} a)
  unfolding pure
  Quiet-pure a h = record { at = λ w. (refl, λ b k. subst P (same a b k) h) }
    where
      same : (a b : A) → ok a ≡ ok b → a ≡ b
      same a b k = cc k

  pub Quiet-on_error :
      (g : Error → Error) (m : Eff W E A)
      → Leaves (Quiet P) m
      → Leaves (Quiet P) (on_error (λ e. raise (g e)) m)
  Quiet-on_error g m h =
      Leaves-on_error g m h (λ a es k. k) (λ e es k. (k.0, λ a n. absurd (cc n)))
        (λ p es k. (k.0, λ a n. absurd (cc n)))

module _ {W E A B : Type 0} {P : A → Type 0} {T : Result B → List E → Type 0} where
  -- A quiet part may end the chain; else the rest decides.
  pub Quiet-seq :
      (m : Eff W E A) (f : A → Eff W E B)
      → Leaves (Quiet P) m
      → ((s : Result B) → IsStop s → T s [])
      → ((a : A) → P a → Leaves T (f a))
      → Leaves T (m >>= f)
  Quiet-seq m f h stops rest =
      Leaves-seq m f h (λ e es k. subst (T (err e)) (sym k.0) (stops (err e) tt))
        (λ p es k. subst (T (panic p)) (sym k.0) (stops (panic p) tt))
        (λ a es k.
          Leaves-imp (f a) (λ r fs t. subst (λ l. T r (l ++ fs)) (sym k.0) t) (rest a (k.1 a refl)))

-- A call with an event on success: it failed with none, or it has its event.
abbrev pub Called : {W E A : Type 0} → (A → E) → (W → Result A × W) → Result A → List E → Type 0
Called {W} {A = A} event f r es =
    (IsStop r × (es ≡ []))
    ⊎ ((a : A) × (w : W) × (r ≡ ok a) × (es ≡ event a ∷ []) × ((f w).0 ≡ ok a))

module _ {W E A : Type 0} (event : A → E) (f : W → Result A × W) where
  pub Leaves-call_ok : Leaves (Called event f) (call_ok event f)
  unfolding call_ok
  Leaves-call_ok = record { at = λ w. called w (f w).0 refl }
    where
      called : (w : W) (r : Result A) → (f w).0 ≡ r → Called event f r (on_ok event r)
      called w (ok a) e = inr (a, w, refl, refl, e)
      called w (err x) e = inl (tt, refl)
      called w (panic m) e = inl (tt, refl)

  pub Leaves-prefixed :
      (g : Error → Error) → Leaves (Called event f) (on_error (λ e. raise (g e)) (call_ok event f))
  Leaves-prefixed g =
      Leaves-on_error g _ Leaves-call_ok (λ a es k. k) (λ e es k. inl (tt, quiet e es k))
        (λ p es k. k)
    where
      quiet : (e : Error) (es : List E) → Called event f (err e) es → es ≡ []
      quiet e es (inl k) = k.1
      quiet e es (inr (a, w, k, _, _)) = absurd (cc k)
