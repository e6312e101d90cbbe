-- ===== src/Medius/Docs/DryRun.antt =====
-- The docs command under --dry-run.
use containerdisks.Base.{◌≡◌, Bool, true, List, [], ◌∷◌, map, All, Text}
use containerdisks.Go.Result.{Result, ok, err, panic}
use containerdisks.Api.{Options}
use containerdisks.Artifacts.{Artifact, Outside}
use containerdisks.Registry.{Entry}
use containerdisks.Effects.{branch}
use containerdisks.Effects.Emits.{Emits, Emits-bind, Emits-call, emits_rules}
use containerdisks.Quay.{Net, QuayClient}
use containerdisks.Medius.Docs.Description.{Texts}
use containerdisks.Medius.Docs.Publish.{
  DocsEvent, inspected, quay, looked_at, Progress, or_failure, publish_description, publish_entry,
  publish_entries, conclude, run,
}

module _ (N : Net) (O : Outside) (T : Texts) (options : Options)
    (dry : options.dry_run ≡ true) where
  open N use {World, Body}

  -- An inspection, and nothing at quay.io.
  abbrev pub IsInspection : DocsEvent Body → Type 0
  IsInspection (inspected a) = Unit
  IsInspection (quay e) = ⊥

  inspections : (artifacts : List Artifact) → All IsInspection (map inspected artifacts)
  inspections [] = tt
  inspections (a ∷ artifacts) = (tt, inspections artifacts)

  Emits-or_failure :
      {A : Type 0} (r : Result A) (f : A → World → Result Bool × List (DocsEvent Body) × World)
      → ((a : A) → Emits IsInspection (f a))
      → Emits IsInspection (or_failure N O T options r f)
  unfolding or_failure
  Emits-or_failure (ok a) f h = h a
  Emits-or_failure (err e) f h = search emits_rules
  Emits-or_failure (panic m) f h = search emits_rules

  Emits-publish_description :
      (client : QuayClient) (name description : Text)
      → Emits IsInspection (publish_description N O T options client name description)
  unfolding publish_description branch
  Emits-publish_description client name description = rw (dry, branch) (search emits_rules)

  Emits-publish_entry :
      (client : QuayClient) (entry : Entry Artifact)
      → Emits IsInspection (publish_entry N O T options client entry)
  unfolding publish_entry
  Emits-publish_entry client entry =
      Emits-bind _ _ (Emits-call _ _ (inspections (looked_at N O T options entry.artifacts))) λ u.
        Emits-or_failure _ _ λ artifact.
          Emits-or_failure _ _ λ description. Emits-publish_description client _ description

  Emits-publish_entries :
      (client : QuayClient) (entries : List (Entry Artifact)) (p : Progress)
      → Emits IsInspection (publish_entries N O T options client entries p)
  unfolding publish_entries
  Emits-publish_entries client [] p = search emits_rules
  Emits-publish_entries client (entry ∷ entries) p =
      search (emits_rules, Emits-publish_entry client entry, Emits-publish_entries client entries)
        depth 8

  Emits-conclude : (p : Progress) → Emits IsInspection (conclude N O T options p)
  unfolding conclude
  Emits-conclude p = search emits_rules depth 8

  Emits-run : (registry : List (Entry Artifact)) → Emits IsInspection (run N O T options registry)
  unfolding run
  Emits-run registry = search (emits_rules, Emits-publish_entries, Emits-conclude) depth 8

  -- In a dry run the docs command sends no request to quay.io, and closes no response of it, however
  -- the run ends: all it does over the registry is to inspect artifacts.
  pub run_dry :
      (registry : List (Entry Artifact)) (w : World)
      → All IsInspection ((run N O T options registry) w).1
  run_dry registry w = (Emits-run registry).at w
