-- ===== src/Tests/PromoteTests.antt =====
-- cmd/medius/images/promote.go with one verified entry.
use containerdisks.Base.{◌≡◌, refl, Bool, true, false, some, none, List, [], ◌∷◌, Text, codes}
use containerdisks.Go.Result.{ok}
use containerdisks.Go.Maps.{Map, empty, lookup}
use containerdisks.Api.{pos, ArtifactResult, Metadata, Options, describe}
use containerdisks.Medius.Workers.{stage_verify}
use containerdisks.Medius.Promote.{Registries, promote_entry, promoted, source_of}
use containerdisks.Medius.Promote.Copies.{copies_of, promote_entry-copies}
use containerdisks.Medius.Promote.DryRun.{promote_entry_dry}

abbrev pub registries : Registries
registries = record {
  World = Unit {0};
  canceled = λ w. (ok false, w);
  copy_image = λ source target insecure w. (ok tt, w);
}

abbrev options : Bool → Options
options dry_run = record {
  allow_insecure_registry = false;
  dry_run = dry_run;
  focus = [];
  images_options = record { results_file = codes "results.json"; workers = pos 1 };
  publish_docs_options = record { registry = []; token_file = [] };
  publish_images_options = record {
    force_build = false;
    no_fail = false;
    source_registry = [];
    target_registry = [];
  };
  promote_image_options = record {
    source_registry = codes "stage/c";
    target_registry = codes "quay.io/c";
  };
  verify_images_options = record {
    registry = [];
    namespace = [];
    no_fail = false;
    timeout = 0;
    target_architecture = [];
  };
}

abbrev metadata : Metadata
metadata = record {
  name = codes "fedora";
  version = codes "43";
  description = [];
  example_user_data = record { username = []; authorized_keys = [] };
  env_variables = empty;
  arch = codes "x86_64";
  is_stable = true;
}

abbrev tags : List Text
tags = codes "fedora:43-1" ∷ codes "fedora:43" ∷ []

abbrev verified : ArtifactResult
verified = record { tags = tags; stage = stage_verify; err = [] }

abbrev results : Map ArtifactResult
results = (codes "fedora:43", verified) ∷ []

promoted_run :
    (promote_entry registries (options false) results metadata tt).0
    ≡ ok (some (promoted registries (options false) tags []), none)
unfolding promote_entry containerdisks.Medius.Promote.promote_result describe
    containerdisks.Effects.branch containerdisks.Medius.Promote.promote_verified
    containerdisks.Effects.on_error containerdisks.Effects.◌>>=◌
    containerdisks.Medius.Promote.promote_artifact containerdisks.Medius.Promote.copy_all
    containerdisks.Medius.Promote.copy containerdisks.Medius.Promote.check_canceled
promoted_run = refl

promote_entry-copies_example :
    (v : ArtifactResult) × (tag : Text) × (rest : List Text) × (lookup (describe metadata) results
      ≡ some v)
    × (v.stage ≡ stage_verify)
    × (v.err ≡ [])
    × (v.tags ≡ tag ∷ rest)
    × ((promote_entry registries (options false) results metadata tt).1
        ≡ copies_of registries (options false) (source_of registries (options false) tag) v.tags)
    × (promoted registries (options false) tags [] ≡ promoted registries (options false) v.tags [])
promote_entry-copies_example =
    promote_entry-copies registries (options false) refl results metadata tt
      (promoted registries (options false) tags []) promoted_run

promote_entry_dry_example : (promote_entry registries (options true) results metadata tt).1 ≡ []
promote_entry_dry_example = promote_entry_dry registries (options true) refl results metadata tt
