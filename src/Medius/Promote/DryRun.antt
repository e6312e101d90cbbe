-- ===== src/Medius/Promote/DryRun.antt =====
-- A dry run of the promote command copies nothing.
use containerdisks.Base.{◌≡◌, refl, true, List, [], ◌∷◌, All, Text, Option, none, some}
use containerdisks.Go.Maps.{Map, lookup}
use containerdisks.Api.{ArtifactResult, Metadata, Options, describe}
use containerdisks.Effects.{branch}
use containerdisks.Effects.Emits.{
  Emits, emits_rules, Emits-bind, Emits-pure, Emits-on_error, Emits-branch,
}
use containerdisks.Medius.Promote.{
  Registries, Copy, check_canceled, copy, copy_all, promote_artifact, promote_verified,
  promote_result, promote_entry,
}

abbrev IsNone : Copy → Type 0
IsNone c = ⊥

module _ (R : Registries) (options : Options) (dry : options.dry_run ≡ true) where
  open R use {World}

  Emits-check_canceled : Emits IsNone (check_canceled R options)
  unfolding check_canceled
  Emits-check_canceled = search emits_rules

  Emits-copy : (source target : Text) → Emits IsNone (copy R options source target)
  unfolding copy
  Emits-copy source target = rw dry (unfold branch in Emits-pure tt)

  Emits-copy_all :
      (source : Text) (tags : List Text) → Emits IsNone (copy_all R options source tags)
  unfolding copy_all
  Emits-copy_all source [] = search emits_rules
  Emits-copy_all source (tag ∷ tags) =
      Emits-bind _ _ (Emits-copy source _)
        λ _. Emits-bind _ _ Emits-check_canceled λ _. Emits-copy_all source tags

  Emits-promote_artifact : (tags : List Text) → Emits IsNone (promote_artifact R options tags)
  unfolding promote_artifact
  Emits-promote_artifact [] = search emits_rules
  Emits-promote_artifact (tag ∷ tags) = Emits-copy_all _ (tag ∷ tags)

  Emits-promote_verified : (tags : List Text) → Emits IsNone (promote_verified R options tags)
  unfolding promote_verified
  Emits-promote_verified tags =
      Emits-on_error _ _ (λ e. search emits_rules)
        (Emits-bind _ _ (Emits-promote_artifact tags) λ _. search emits_rules)

  Emits-promote_result :
      (description : Text) (found : Option ArtifactResult)
      → Emits IsNone (promote_result R options description found)
  unfolding promote_result
  Emits-promote_result description none = search emits_rules
  Emits-promote_result description (some r) =
      Emits-branch _ _ _
        (λ _. Emits-branch _ _ _ (λ _. Emits-promote_verified r.tags) (λ _. Emits-pure _))
        (λ _. Emits-pure _)

  no_copies : (cs : List Copy) → All IsNone cs → cs ≡ []
  no_copies [] h = refl
  no_copies (c ∷ cs) h = absurd h.0

  -- Under `--dry-run`, however the promotion of an entry ends, no image is copied.
  pub promote_entry_dry :
      (results : Map ArtifactResult) (metadata : Metadata) (w : World)
      → ((promote_entry R options results metadata) w).1 ≡ []
  unfolding promote_entry
  promote_entry_dry results metadata w =
      no_copies _
        ((Emits-promote_result (describe metadata) (lookup (describe metadata) results)).at w)
