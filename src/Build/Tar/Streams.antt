-- ===== src/Build/Tar/Streams.antt =====
-- pkg/build/tar.go: the opener and the writer from the start on, and how they end.
use containerdisks.Base.{
  ◌≡◌, ◌≢◌, refl, sym, subst, ap, ◌∙◌, Bool, true, false, Option, none, some, List, [], ◌∷◌, ◌++◌,
  append-nil, map, Text, ◌⊎◌, inl, inr,
}
use containerdisks.Go.Result.{Error}
use containerdisks.Build.Tar.{
  Writer, opening, stating, adding, footing, leaving, gone, failing, Opener, waiting, returned,
  Stream, started, opening_error, stat_error, adding_error, footer_error, Step, Steps, stay, more,
  open_ok, open_failed, stat_ok, stat_failed, hand_over, go_on, add_ok, add_failed, footer_ok,
  footer_failed, leave,
}

-- How the opener has answered: with the reader if nothing was refused, or with the one refusal.
abbrev pub Answered : List Error → Opener → Type 0
Answered refusals o =
    ((o ≡ returned none) × (refusals ≡ []))
    ⊎ ((e : Error) × (o ≡ returned (some e)) × (refusals ≡ e ∷ []))

-- What the writer's place says of the rest. Until the channel is closed or has taken an error the
-- other side waits; the archive is written to its end only with the reader returned.
abbrev pub Place : List Error → Writer → Opener → Bool → Bool → Type 0
Place refusals opening o closed file =
    (o ≡ waiting) × (closed ≡ false) × (file ≡ false) × (refusals ≡ [])
Place refusals stating o closed file =
    (o ≡ waiting) × (closed ≡ false) × (file ≡ true) × (refusals ≡ [])
Place refusals (failing e) o closed file = (o ≡ waiting) × (closed ≡ false) × (refusals ≡ e ∷ [])
Place refusals adding o closed file =
    ((o ≡ waiting) ⊎ (o ≡ returned none)) × (closed ≡ true) × (file ≡ true) × (refusals ≡ [])
Place refusals footing o closed file = (o ≡ returned none) × (file ≡ true) × (refusals ≡ [])
Place refusals leaving o closed file = Answered refusals o
Place refusals gone o closed file = Answered refusals o × (file ≡ false)

module _ (image_path : Text) where
  -- The failures of a step behind the opening.
  abbrev fault_of : {s t : Stream} → Step image_path s t → List Error
  fault_of (add_failed e w o q) = adding_error image_path e ∷ []
  fault_of (footer_failed e w o q) = footer_error e ∷ []
  fault_of (open_ok w q) = []
  fault_of (open_failed e w q) = []
  fault_of (stat_ok w q) = []
  fault_of (stat_failed e w q) = []
  fault_of (hand_over e w o q) = []
  fault_of (go_on c o q) = []
  fault_of (add_ok w o q) = []
  fault_of (footer_ok w o q) = []
  fault_of (leave w q) = []

  -- The failures to open the file or to get its size.
  abbrev refusal_of : {s t : Stream} → Step image_path s t → List Error
  refusal_of (open_failed e w q) = opening_error e ∷ []
  refusal_of (stat_failed e w q) = stat_error e ∷ []
  refusal_of (add_failed e w o q) = []
  refusal_of (footer_failed e w o q) = []
  refusal_of (open_ok w q) = []
  refusal_of (stat_ok w q) = []
  refusal_of (hand_over e w o q) = []
  refusal_of (go_on c o q) = []
  refusal_of (add_ok w o q) = []
  refusal_of (footer_ok w o q) = []
  refusal_of (leave w q) = []

  -- Those of some steps, in their order.
  abbrev pub faults_of : {s t : Stream} → Steps image_path s t → List Error
  faults_of stay = []
  faults_of (more r x) = faults_of r ++ fault_of x

  abbrev pub refusals_of : {s t : Stream} → Steps image_path s t → List Error
  refusals_of stay = []
  refusals_of (more r x) = refusals_of r ++ refusal_of x

  -- What closes the pipe behind the failures: the deferred call of a writer that has ended.
  abbrev pub last_closing : Writer → List (Option Error)
  last_closing gone = none ∷ []
  last_closing opening = []
  last_closing stating = []
  last_closing adding = []
  last_closing footing = []
  last_closing leaving = []
  last_closing (failing e) = []

  pub record IsSound (refusals faults : List Error) (s : Stream) : Type 0 where
    pub place : Place refusals s.writer s.opener s.channel_closed s.file_open
    pub pipe : s.closings ≡ map some faults ++ last_closing s.writer

  map_snoc :
      (faults : List Error) (e : Error)
      → map some (faults ++ e ∷ []) ≡ map some faults ++ some e ∷ []
  map_snoc [] e = refl
  map_snoc (f ∷ faults) e = ap (λ l. some f ∷ l) (map_snoc faults e)

  module _ (s : Stream) (refusals faults : List Error) (h : IsSound refusals faults s) where
    at : (p : Writer) → s.writer ≡ p → Place refusals p s.opener s.channel_closed s.file_open
    at p w = subst (λ x. Place refusals x s.opener s.channel_closed s.file_open) w h.place

    closed_so_far : (p : Writer) → s.writer ≡ p → s.closings ≡ map some faults ++ last_closing p
    closed_so_far p w = subst (λ x. s.closings ≡ map some faults ++ last_closing x) w h.pipe

    -- A step with no failure of the archive, from a place before the end to another.
    silent :
        (t : Stream) (p : Writer) (refused : List Error)
        → s.writer ≡ p
        → last_closing p ≡ []
        → last_closing t.writer ≡ []
        → t.closings ≡ s.closings
        → Place (refusals ++ refused) t.writer t.opener t.channel_closed t.file_open
        → IsSound (refusals ++ refused) (faults ++ []) t
    silent t p refused w before after same place = record {
      place = place;
      pipe =
          same
          ∙ (closed_so_far p w
              ∙ (ap (λ l. map some faults ++ l) (before ∙ sym after)
                  ∙ ap (λ l. map some l ++ last_closing t.writer) (sym (append-nil faults))));
    }

    -- The same with nothing refused.
    quiet :
        (t : Stream) (p : Writer)
        → s.writer ≡ p
        → last_closing p ≡ []
        → last_closing t.writer ≡ []
        → t.closings ≡ s.closings
        → Place refusals t.writer t.opener t.channel_closed t.file_open
        → IsSound (refusals ++ []) (faults ++ []) t
    quiet t p w before after same place = silent t p [] w before after same (
        subst (λ l. Place l t.writer t.opener t.channel_closed t.file_open)
          (sym (append-nil refusals)) place)

    -- A step with a failure of the archive, which closes the pipe.
    faulty :
        (t : Stream) (p : Writer) (e : Error)
        → s.writer ≡ p
        → last_closing p ≡ []
        → last_closing t.writer ≡ []
        → t.closings ≡ s.closings ++ some e ∷ []
        → Place refusals t.writer t.opener t.channel_closed t.file_open
        → IsSound (refusals ++ []) (faults ++ e ∷ []) t
    faulty t p e w before after same place = record {
      place =
          subst (λ l. Place l t.writer t.opener t.channel_closed t.file_open)
            (sym (append-nil refusals)) place;
      pipe =
          same
          ∙ (ap (λ l. l ++ some e ∷ [])
                (closed_so_far p w
                  ∙ (ap (λ l. map some faults ++ l) before ∙ append-nil (map some faults)))
              ∙ (sym (map_snoc faults e)
                  ∙ (sym (append-nil (map some (faults ++ e ∷ [])))
                      ∙ ap (λ l. map some (faults ++ e ∷ []) ++ l) (sym after))));
    }

    answered_late : {A : Type 0} → Answered refusals s.opener → s.opener ≡ waiting → A
    answered_late (inl (k, r)) o = absurd (cc (k, o))
    answered_late (inr (e, k, r)) o = absurd (cc (k, o))

    went_on :
        (p : Writer)
        → s.channel_closed ≡ true
        → s.opener ≡ waiting
        → Place refusals p s.opener s.channel_closed s.file_open
        → Place refusals p (returned none) s.channel_closed s.file_open
    went_on opening c o place = absurd (cc (place.1, c))
    went_on stating c o place = absurd (cc (place.1, c))
    went_on (failing e) c o place = absurd (cc (place.1, c))
    went_on adding c o place = (inr refl, place.1, place.2, place.3)
    went_on footing c o place = absurd (cc (place.0, o))
    went_on leaving c o place = answered_late place o
    went_on gone c o place = answered_late place.0 o

    step-IsSound :
        (t : Stream) (x : Step image_path s t)
        → IsSound (refusals ++ refusal_of x) (faults ++ fault_of x) t
    step-IsSound t (open_ok w q) =
        let a = at opening w in
        rw q (
          quiet (record s { writer = stating; file_open = true }) opening w refl refl refl
            (a.0, a.1, refl, a.3))
    step-IsSound t (open_failed e w q) =
        let a = at opening w in
        rw q (
          silent (record s { writer = failing (opening_error e) }) opening (opening_error e ∷ []) w
            refl refl refl (a.0, a.1, ap (λ l. l ++ opening_error e ∷ []) a.3))
    step-IsSound t (stat_ok w q) =
        let a = at stating w in
        rw q (
          quiet (record s { writer = adding; channel_closed = true }) stating w refl refl refl
            (inl a.0, refl, a.2, a.3))
    step-IsSound t (stat_failed e w q) =
        let a = at stating w in
        rw q (
          silent (record s { writer = failing (stat_error e) }) stating (stat_error e ∷ []) w refl
            refl refl (a.0, a.1, ap (λ l. l ++ stat_error e ∷ []) a.3))
    step-IsSound t (hand_over e w o q) = rw q (
        quiet (record s { writer = leaving; opener = returned (some e) }) (failing e) w refl refl
          refl (inr (e, refl, (at (failing e) w).2)))
    step-IsSound t (go_on c o q) =
        rw (q, append-nil faults, append-nil refusals)
          (record { place = went_on s.writer c o h.place; pipe = h.pipe })
    step-IsSound t (add_ok w o q) = rw q (
        quiet (record s { writer = footing }) adding w refl refl refl
          (o, (at adding w).2, (at adding w).3))
    step-IsSound t (add_failed e w o q) = rw q (
        faulty
          (record s {
            writer = footing;
            closings = s.closings ++ some (adding_error image_path e) ∷ [];
          })
          adding (adding_error image_path e) w refl refl refl (o, (at adding w).2, (at adding w).3))
    step-IsSound t (footer_ok w o q) =
        rw q (
          quiet (record s { writer = leaving }) footing w refl refl refl
            (inl (o, (at footing w).2)))
    step-IsSound t (footer_failed e w o q) = rw q (
        faulty (record s { writer = leaving; closings = s.closings ++ some (footer_error e) ∷ [] })
          footing (footer_error e) w refl refl refl (inl (o, (at footing w).2)))
    step-IsSound t (leave w q) =
        rw (q, append-nil faults, append-nil refusals)
          (record {
            place = (at leaving w, refl);
            pipe =
                ap (λ l. l ++ none ∷ []) (closed_so_far leaving w ∙ append-nil (map some faults));
          })

  pub steps-IsSound :
      (s : Stream) (r : Steps image_path started s) → IsSound (refusals_of r) (faults_of r) s
  steps-IsSound _ stay = record { place = (refl, refl, refl, refl); pipe = refl }
  steps-IsSound u (more {t} r x) =
      step-IsSound t (refusals_of r) (faults_of r) (steps-IsSound t r) u x

  -- What the reader of the pipe sees at its end: the error of the first call that closed the pipe.
  abbrev pub pipe_end : List (Option Error) → Option Error
  pipe_end [] = none
  pipe_end (c ∷ cs) = c

  -- How the stream ends: with what was answered, the file closed, and the end of the pipe, which is
  -- an error exactly if adding the file or the footer failed.
  pub record IsEnd (refusals faults : List Error) (s : Stream) : Type 0 where
    pub answered : Answered refusals s.opener
    pub file_closed : s.file_open ≡ false
    pub pipe_closed : s.closings ≢ []
    pub sound_end :
        (pipe_end s.closings ≡ none → faults ≡ []) × (faults ≡ [] → pipe_end s.closings ≡ none)

  -- Whatever fails and however the two sides interleave, once the writer has ended, the function has
  -- returned: the reader if opening the file and getting its size did not fail, else the error of the
  -- one of them that failed. The file is closed, and the pipe has an end, which is no error
  -- exactly if adding the file and writing the footer did not fail.
  pub finished-IsEnd :
      (s : Stream) (r : Steps image_path started s)
      → s.writer ≡ gone
      → IsEnd (refusals_of r) (faults_of r) s
  finished-IsEnd s r w =
      let h = steps-IsSound s r in
      let place = at s (refusals_of r) (faults_of r) h gone w in
      let pipe = closed_so_far s (refusals_of r) (faults_of r) h gone w in
      record {
        answered = place.0;
        file_closed = place.1;
        pipe_closed = λ e. ended (faults_of r) (sym pipe ∙ e);
        sound_end = (
          λ e. clean (faults_of r) (ap pipe_end (sym pipe) ∙ e),
          λ e. ap pipe_end (pipe ∙ ap (λ l. map some l ++ none ∷ []) e),
        );
      }
    where
      ended : (faults : List Error) → (map some faults ++ none ∷ []) ≢ []
      ended [] e = cc e
      ended (f ∷ faults) e = cc e

      clean : (faults : List Error) → pipe_end (map some faults ++ none ∷ []) ≡ none → faults ≡ []
      clean [] e = refl
      clean (f ∷ faults) e = absurd (cc e)
