-- ===== src/Medius/Push/Quiet.antt =====
-- A view of the trace of two actions in sequence, of which a view sees one only.
use containerdisks.Base.{◌≡◌, ◌∙◌, ap, refl, List, [], ◌++◌, append-nil}
use containerdisks.Go.Result.{ok}
use containerdisks.Effects.{Eff, finally, ◌>>=◌}
use containerdisks.Effects.Emits.{Emits}
use containerdisks.Effects.Success.{bind-ok, finally-events}
use containerdisks.Medius.Env.{Event}
use containerdisks.Medius.Push.Trace.{View}

module _ (view : View) where
  open view use {names, IsSilent, names-append, names-nil}

  pub quiet : {W A : Type 0} (m : Eff W Event A) (w : W) → Emits IsSilent m → names (m w).1 ≡ []
  quiet m w h = names-nil _ (h.at w)

  append_quiet : (es fs : List Event) → names fs ≡ [] → names (es ++ fs) ≡ names es
  append_quiet es fs h = rw (names-append es fs, h) (append-nil (names es))

  quiet_append : (es fs : List Event) → names es ≡ [] → names (es ++ fs) ≡ names fs
  quiet_append es fs h = rw (names-append es fs, h) refl

  module _ {W A B : Type 0} (m : Eff W Event A) (f : A → Eff W Event B) (w : W) where
    -- What the second part shows, if the view does not see the first.
    pub bind_quiet :
        {b : B}
        → Emits IsSilent m
        → ((m >>= f) w).0 ≡ ok b
        → (a : A) × ((m w).0 ≡ ok a)
          × ((f a (m w).2).0 ≡ ok b)
          × (names ((m >>= f) w).1 ≡ names (f a (m w).2).1)
    bind_quiet hm h =
        let (a, e, h', es) = bind-ok m f w h in
        (a, e, h', ap names es ∙ quiet_append _ _ (quiet m w hm))

    -- What the first part shows, if the view does not see the second.
    pub quiet_bind :
        {b : B}
        → ((a : A) → Emits IsSilent (f a))
        → ((m >>= f) w).0 ≡ ok b
        → (a : A) × ((m w).0 ≡ ok a)
          × ((f a (m w).2).0 ≡ ok b)
          × (names ((m >>= f) w).1 ≡ names (m w).1)
    quiet_bind hf h =
        let (a, e, h', es) = bind-ok m f w h in
        (a, e, h', ap names es ∙ append_quiet _ _ (quiet (f a) (m w).2 (hf a)))

    -- What both show.
    pub bind_both :
        {b : B}
        → ((m >>= f) w).0 ≡ ok b
        → (a : A) × ((m w).0 ≡ ok a)
          × ((f a (m w).2).0 ≡ ok b)
          × (names ((m >>= f) w).1 ≡ names (m w).1 ++ names (f a (m w).2).1)
    bind_both h = let (a, e, h', es) = bind-ok m f w h in (a, e, h', ap names es ∙ names-append _ _)

  module _ {W A B : Type 0} (m : Eff W Event A) (c : Eff W Event B) (w : W) where
    pub finally_quiet : Emits IsSilent c → names ((finally m c) w).1 ≡ names (m w).1
    finally_quiet hc = ap names (finally-events m c w) ∙ append_quiet _ _ (quiet c (m w).2 hc)

    pub quiet_finally : Emits IsSilent m → names ((finally m c) w).1 ≡ names (c (m w).2).1
    quiet_finally hm = ap names (finally-events m c w) ∙ quiet_append _ _ (quiet m w hm)
