-- ===== src/Medius/Docs/Publish.antt =====
-- cmd/medius/docs/docs.go: the loop that publishes the descriptions, over the registry that was made
-- before it. An inspection of an artifact sends requests of its own, and is an event here; it is taken
-- to give one answer during a run. The logger is left out.
use containerdisks.Base.{
  Bool, true, false, not, ◌&&◌, ◌||◌, List, [], ◌∷◌, ◌++◌, map, Text, codes, text_beq, text_eq,
  ◌==◌, if◌then◌else◌,
}
use containerdisks.Go.Result.{plain, Result, ok, err, panic}
use containerdisks.Api.{ArtifactDetails, Options}
use containerdisks.Artifacts.{Artifact, Outside, metadata, inspect}
use containerdisks.Registry.{Entry, should_skip}
use containerdisks.Effects.{branch, Eff, pure, raise, lift, call, on_error, ◌>>=◌, ◌>>◌}
use containerdisks.Quay.{Net, QuayClient, Event, new_quay_client, update}
use containerdisks.Medius.Docs.{amd64, get_quay_org, get_preferred_artifact}
use containerdisks.Medius.Docs.Description.{Texts, create_description}

-- `success` and `focusMatched`.
pub record Progress : Type 0 where
  pub success : Bool
  pub focus_matched : Bool

-- An artifact that is inspected, which asks its source over the network, or a request to quay.io or a
-- response of it that is closed.
pub data DocsEvent (Body : Type 0) : Type 0 where
  inspected : Artifact → DocsEvent Body
  quay : Event Body → DocsEvent Body

module _ (N : Net) (O : Outside) (T : Texts) (options : Options) where
  open N use {World, Body}

  abbrev pub M : Type 0 → Type 0
  M A = Eff World (DocsEvent Body) A

  -- The loop of getPreferredArtifact goes on behind an artifact for another architecture.
  abbrev pub goes_on : Result ArtifactDetails → Bool
  goes_on (ok details) = not (details.image_architecture == amd64)
  goes_on (err e) = false
  goes_on (panic m) = false

  -- The artifacts that the loop inspects.
  unfoldable pub looked_at : List Artifact → List Artifact
  unfolding text_beq
  looked_at [] = []
  looked_at (artifact ∷ artifacts) =
      let later = looked_at artifacts in
      artifact ∷ (if goes_on (inspect O artifact) then later else [])

  -- What the client of quay.io does.
  unfoldable pub at_quay : {A : Type 0} → Eff World (Event Body) A → M A
  at_quay m w = let (r, es, w') = m w in (r, map quay es, w')

  -- A result whose error is logged: the round of the loop has no success then.
  unfoldable pub or_failure : {A : Type 0} → Result A → (A → M Bool) → M Bool
  or_failure (ok a) f = f a
  or_failure (err e) f = pure false
  or_failure (panic m) f = lift (panic m)

  -- The update, which a dry run leaves out.
  unfoldable pub publish_description : QuayClient → Text → Text → M Bool
  publish_description client name description =
      branch options.dry_run (pure true)
        (on_error (λ e. pure false) (do at_quay (update N client name description); pure true))

  -- The body of the loop, for an entry that is not skipped: whether it had success.
  unfoldable pub publish_entry : QuayClient → Entry Artifact → M Bool
  unfolding get_preferred_artifact create_description metadata
  publish_entry client entry = do
    call (map inspected (looked_at entry.artifacts)) (λ w. (ok tt, w))
    or_failure (get_preferred_artifact (inspect O) entry.artifacts) λ artifact.
        or_failure (create_description T artifact options.publish_docs_options.registry)
          λ description. publish_description client (metadata artifact).name description

  abbrev pub is_left_out : Entry Artifact → Bool
  is_left_out entry = should_skip metadata options.focus entry || not entry.use_for_docs

  -- The loop over the registry.
  unfoldable pub publish_entries : QuayClient → List (Entry Artifact) → Progress → M Progress
  publish_entries client [] progress = pure progress
  publish_entries client (entry ∷ entries) progress =
      branch (is_left_out entry) (publish_entries client entries progress) (do
        success ← publish_entry client entry
        publish_entries client entries
            (record { success = progress.success && success; focus_matched = true }))

  unfoldable pub conclude : Progress → M (Unit {0})
  conclude progress = do
    branch progress.focus_matched (pure tt) (
        raise (
          plain (
            codes "no artifact was processed, focus '"
            ++ (options.focus ++ codes "' did not match"))))
    branch progress.success (pure tt)
        (raise (plain (codes "an error occurred during publishing of the docs")))

  unfoldable pub run : List (Entry Artifact) → M (Unit {0})
  unfolding get_quay_org
  run registry = do
    quay_org ← lift (get_quay_org options.publish_docs_options.registry)
    let client = new_quay_client options.publish_docs_options.token_file quay_org
    progress ← publish_entries client registry (record { success = true; focus_matched = false })
    conclude progress
