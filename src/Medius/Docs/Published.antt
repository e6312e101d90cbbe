-- ===== src/Medius/Docs/Published.antt =====
-- What a run of the docs command publishes.
use containerdisks.Base.{
  ◌≡◌, refl, sym, subst, ap, ◌∙◌, Bool, true, false, ◌&&◌, List, [], ◌∷◌, ◌++◌, append-nil, map,
  Text, Bool-cases, ◌⊎◌, inl, inr,
}
use containerdisks.Go.Result.{Result, ok, err, panic}
use containerdisks.Api.{Options}
use containerdisks.Artifacts.{Artifact, Outside, metadata, inspect}
use containerdisks.Registry.{Entry}
use containerdisks.Effects.{branch, pure, raise, lift, call, ◌>>=◌}
use containerdisks.Effects.Success.{bind-ok, branch_then, on_error-ok}
use containerdisks.Quay.{Net, QuayClient, new_quay_client, update}
use containerdisks.Medius.Docs.{get_quay_org, get_preferred_artifact}
use containerdisks.Medius.Docs.Description.{Texts, create_description}
use containerdisks.Medius.Docs.Publish.{
  DocsEvent, inspected, quay, goes_on, looked_at, at_quay, Progress, or_failure,
  publish_description, publish_entry, is_left_out, publish_entries, conclude, run,
}

module _ (N : Net) (O : Outside) (T : Texts) (options : Options) where
  open N use {World, Body}

  -- The first artifacts of the entry were inspected, in their order; then the description of the
  -- preferred one was sent, and accepted.
  pub record IsUpdated (client : QuayClient) (entry : Entry Artifact) (es : List (DocsEvent Body))
      : Type 0 where
    pub looked : List Artifact
    pub unlooked : List Artifact
    pub split : entry.artifacts ≡ looked ++ unlooked
    pub artifact : Artifact
    pub preferred : get_preferred_artifact (inspect O) entry.artifacts ≡ ok artifact
    pub description : Text
    pub described :
        create_description T artifact options.publish_docs_options.registry ≡ ok description
    pub at : World
    pub accepted : ((update N client (metadata artifact).name description) at).0 ≡ ok tt
    pub events :
        es
        ≡ map inspected looked
          ++ map quay ((update N client (metadata artifact).name description) at).1

  -- The entries that are not left out were updated, each once and in their order.
  pub data Published (client : QuayClient)
      : List (Entry Artifact) → List (DocsEvent Body) → Type 0 where
    nothing : Published client [] []
    left_out :
        {entry : Entry Artifact} {entries : List (Entry Artifact)} {es : List (DocsEvent Body)}
        → is_left_out N O T options entry ≡ true
        → Published client entries es
        → Published client (entry ∷ entries) es
    updated :
        {entry : Entry Artifact} {entries : List (Entry Artifact)} {es fs : List (DocsEvent Body)}
        → is_left_out N O T options entry ≡ false
        → IsUpdated client entry es
        → Published client entries fs
        → Published client (entry ∷ entries) (es ++ fs)

  -- An entry that is not left out.
  abbrev pub HasEntry : List (Entry Artifact) → Type 0
  HasEntry entries =
      (before : List (Entry Artifact)) × (entry : Entry Artifact) × (after : List (Entry Artifact))
      × (entries ≡ before ++ entry ∷ after)
      × (is_left_out N O T options entry ≡ false)

  or_failure-ok :
      {A : Type 0} (r : Result A) (f : A → World → Result Bool × List (DocsEvent Body) × World)
      (w : World)
      → ((or_failure N O T options r f) w).0 ≡ ok true
      → (a : A) × (r ≡ ok a)
        × (((f a) w).0 ≡ ok true)
        × (((or_failure N O T options r f) w).1 ≡ ((f a) w).1)
  unfolding or_failure pure lift
  or_failure-ok (ok a) f w h = (a, refl, h, refl)
  or_failure-ok (err e) f w h = absurd (cc h)
  or_failure-ok (panic m) f w h = absurd (cc h)

  module _ (real : options.dry_run ≡ false) where
    publish_description-ok :
        (client : QuayClient) (name description : Text) (w : World)
        → ((publish_description N O T options client name description) w).0 ≡ ok true
        → (((update N client name description) w).0 ≡ ok tt)
          × (((publish_description N O T options client name description) w).1
              ≡ map quay ((update N client name description) w).1)
    unfolding publish_description pure branch at_quay
    publish_description-ok client name description w =
        rw (real, branch)
          λ h.
            let (k, es) = on_error-ok (λ e. pure false) _ w (λ e v n. cc n) h in
            let (u, e1, h1, es1) =
              bind-ok (at_quay N O T options (update N client name description)) _ w k in
            (e1, es ∙ (es1 ∙ append-nil _))

    looked_at-split :
        (artifacts : List Artifact)
        → (rest : List Artifact) × (artifacts ≡ looked_at N O T options artifacts ++ rest)
    unfolding looked_at
    looked_at-split [] = ([], refl)
    looked_at-split (a ∷ artifacts) = elim (Bool-cases (goes_on N O T options (inspect O a))) [
      | inl e ↦ let (rest, q) = looked_at-split artifacts in (rest, rw e (ap (λ l. a ∷ l) q))
      | inr e ↦ (artifacts, rw e refl)
    ]

    publish_entry-IsUpdated :
        (client : QuayClient) (entry : Entry Artifact) (w : World)
        → ((publish_entry N O T options client entry) w).0 ≡ ok true
        → IsUpdated client entry ((publish_entry N O T options client entry) w).1
    unfolding publish_entry call
    publish_entry-IsUpdated client entry w h' =
        let (u, e0, h, es0) = bind-ok _ _ w h' in
        let (unlooked, parts) = looked_at-split entry.artifacts in
        let (a, e, h1, es1) =
          or_failure-ok (get_preferred_artifact (inspect O) entry.artifacts) _ w h in
        let (d, e2, h2, es2) =
          or_failure-ok (create_description T a options.publish_docs_options.registry) _ w h1 in
        let (k, es3) = publish_description-ok client (metadata a).name d w h2 in
        record {
          looked = looked_at N O T options entry.artifacts;
          unlooked = unlooked;
          split = parts;
          artifact = a;
          preferred = e;
          description = d;
          described = e2;
          at = w;
          accepted = k;
          events =
              es0
              ∙ ap (λ l. map inspected (looked_at N O T options entry.artifacts) ++ l)
                  (es1 ∙ (es2 ∙ es3));
        }

    and_true : (a b : Bool) → (a && b) ≡ true → (a ≡ true) × (b ≡ true)
    and_true true b h = (refl, h)
    and_true false b h = absurd (cc h)

    -- What the loop has done if it ends with success.
    pub record IsLoop (client : QuayClient) (entries : List (Entry Artifact)) (p q : Progress)
        (es : List (DocsEvent Body)) : Type 0 where
      pub before : p.success ≡ true
      pub published : Published client entries es
      pub matched : q.focus_matched ≡ true → (p.focus_matched ≡ true) ⊎ HasEntry entries

    later_entry :
        (e : Entry Artifact) (entries : List (Entry Artifact))
        → HasEntry entries
        → HasEntry (e ∷ entries)
    later_entry e entries (before, entry, after, parts, kept) =
        (e ∷ before, entry, after, ap (λ l. e ∷ l) parts, kept)

    -- The round of an entry before the rounds of the others.
    round-IsLoop :
        (client : QuayClient) (entry : Entry Artifact) (entries : List (Entry Artifact))
        (p q : Progress) (b : Bool)
        → is_left_out N O T options entry ≡ b
        → ((p' : Progress) (w : World)
            → ((publish_entries N O T options client entries p') w).0 ≡ ok q
            → IsLoop client entries p' q ((publish_entries N O T options client entries p') w).1)
        → (w : World)
        → ((branch b (publish_entries N O T options client entries p) (
              publish_entry N O T options client entry >>= λ success.
              publish_entries N O T options client entries
                (record { success = p.success && success; focus_matched = true })))
            w).0
          ≡ ok q
        → IsLoop client
            (entry ∷ entries)
            p
            q
            ((branch b (publish_entries N O T options client entries p) (
                publish_entry N O T options client entry >>= λ success.
                publish_entries N O T options client entries
                  (record { success = p.success && success; focus_matched = true })))
              w).1
    unfolding branch
    round-IsLoop client entry entries p q true e rest w h =
        let l = rest p w h in
        record {
          before = l.before;
          published = left_out e l.published;
          matched = λ m. elim (l.matched m) [
            | inl k ↦ inl k
            | inr has ↦ inr (later_entry entry entries has)
          ];
        }
    round-IsLoop client entry entries p q false e rest w h =
        let (success, e1, h1, es) = bind-ok (publish_entry N O T options client entry) _ w h in
        let l = rest (record { success = p.success && success; focus_matched = true }) _ h1 in
        let (before, now) = and_true p.success success l.before in
        record {
          before = before;
          published =
              subst (Published client (entry ∷ entries)) (sym es)
                (updated e (publish_entry-IsUpdated client entry w (e1 ∙ ap ok now)) l.published);
          matched = λ m. inr ([], entry, entries, refl, e);
        }

    publish_entries-IsLoop :
        (client : QuayClient) (entries : List (Entry Artifact)) (p q : Progress)
        → q.success ≡ true
        → (w : World) → ((publish_entries N O T options client entries p) w).0 ≡ ok q
        → IsLoop client entries p q ((publish_entries N O T options client entries p) w).1
    unfolding publish_entries pure
    publish_entries-IsLoop client [] p q s w h =
        let same : p ≡ q = cc h in
        record { before = cc (same, s); published = nothing; matched = λ m. inl (cc (same, m)) }
    publish_entries-IsLoop client (entry ∷ entries) p q s w h =
        round-IsLoop client entry entries p q (is_left_out N O T options entry) refl
          (λ p' w' k. publish_entries-IsLoop client entries p' q s w' k) w h

    without : (es fs gs : List (DocsEvent Body)) → es ≡ fs ++ gs → gs ≡ [] → es ≡ fs
    without es fs gs e g = e ∙ (ap (λ l. fs ++ l) g ∙ append-nil fs)

    no_events : (es fs gs : List (DocsEvent Body)) → es ≡ fs ++ gs → fs ≡ [] → gs ≡ [] → es ≡ []
    no_events es fs gs e f g = e ∙ (ap (λ l. l ++ gs) f ∙ g)

    conclude-ok :
        (q : Progress) (w : World)
        → ((conclude N O T options q) w).0 ≡ ok tt
        → (q.focus_matched ≡ true) × (q.success ≡ true) × (((conclude N O T options q) w).1 ≡ [])
    unfolding conclude raise pure
    conclude-ok q w h =
        let (u, e1, h1, es) = bind-ok _ _ w h in
        let (m, k1, es1) = branch_then _ _ _ w e1 (λ n. cc n) in
        let (s, k2, es2) = branch_then _ _ _ _ h1 (λ n. cc n) in (m, s, no_events _ _ _ es es1 es2)

    -- If a run of the docs command over a registry ends without an error and it is no dry run, the
    -- registry of the images is one of quay.io; at least one entry was not left out by the focus or by
    -- its flag; and for each such entry, in their order and once, the first of its artifacts were
    -- inspected, in their order, and then the description of its preferred artifact was sent to
    -- quay.io, with all requests accepted. Nothing else was sent to quay.io, and nothing else was
    -- inspected. An inspection is taken to give one answer during the run; what made the registry
    -- comes before the run.
    pub run-Published :
        (registry : List (Entry Artifact)) (w : World)
        → ((run N O T options registry) w).0 ≡ ok tt
        → (org : Text) × (get_quay_org options.publish_docs_options.registry ≡ ok org)
          × HasEntry registry
          × Published
              (new_quay_client options.publish_docs_options.token_file org)
              registry
              ((run N O T options registry) w).1
    unfolding run lift
    run-Published registry w h =
        let (org, e, h1, es1) = bind-ok _ _ w h in
        let (q, e2, h2, es2) = bind-ok _ _ w h1 in
        let (m, s, quiet) = conclude-ok q _ h2 in
        let l =
          publish_entries-IsLoop (new_quay_client options.publish_docs_options.token_file org)
            registry _ q s w e2 in
        (
          org,
          e,
          kept (l.matched m),
          subst (Published (new_quay_client options.publish_docs_options.token_file org) registry)
              (sym (es1 ∙ without _ _ _ es2 quiet)) l.published,
        )
      where
        kept : (false ≡ true) ⊎ HasEntry registry → HasEntry registry
        kept (inl k) = absurd (cc k)
        kept (inr has) = has
