-- ===== src/Tests/PublishTests.antt =====
-- cmd/medius/docs/docs.go: a run over one artifact, with a server that accepts everything.
use containerdisks.Base.{◌≡◌, refl, Bool, true, false, none, [], ◌∷◌, All, Text, codes}
use containerdisks.Go.Result.{ok, err, plain}
use containerdisks.Go.Maps.{empty}
use containerdisks.Api.{pos, Options, sha256}
use containerdisks.Artifacts.{Artifact, Outside, generic, inspect}
use containerdisks.Artifacts.Generic
use containerdisks.Registry.{Entry}
use containerdisks.Effects.{◌>>=◌}
use containerdisks.Quay.{Net, description, new_quay_client}
use containerdisks.Medius.Docs.{get_quay_org}
use containerdisks.Medius.Docs.Description.{Texts}
use containerdisks.Medius.Docs.Publish.{run}
use containerdisks.Medius.Docs.Published.{HasEntry, Published, run-Published}
use containerdisks.Medius.Docs.DryRun.{IsInspection, run_dry}
use containerdisks.Tests.QuayTests.{net}

abbrev good_net : Net
good_net = record net {
  World = Unit {0};
  read_file = λ file w. (ok (codes "t0k3n"), w);
  send = λ req w. (ok (record { status_code = 200; body = tt }), w);
  read_body = λ body w. ([], w);
  close = λ body w. (ok tt, w);
}

abbrev outside : Outside
outside = record {
  get_all = λ url. err (plain (codes "offline"));
  key_order = λ ks. ks;
  unmarshal_build_data = λ t. none;
  unmarshal_releases = λ t. err (plain []);
}

abbrev texts : Texts
texts = record {
  yaml_marshal = λ vm. ok (codes "kind: VirtualMachine");
  execute = λ d. ok d.example;
}

abbrev options : Bool → Options
options dry_run = record {
  allow_insecure_registry = false;
  dry_run = dry_run;
  focus = [];
  images_options = record { results_file = codes "results.json"; workers = pos 1 };
  publish_docs_options = record { registry = codes "quay.io/c"; token_file = codes "token" };
  publish_images_options = record {
    force_build = false;
    no_fail = false;
    source_registry = [];
    target_registry = [];
  };
  promote_image_options = record { source_registry = []; target_registry = [] };
  verify_images_options = record {
    registry = [];
    namespace = [];
    no_fail = false;
    timeout = 0;
    target_architecture = [];
  };
}

abbrev cirros : Artifact
cirros = generic (record {
  artifact_details = record {
    checksum = [];
    checksum_hash = sha256;
    download_url = [];
    image_architecture = codes "amd64";
    compression = [];
    additional_unique_tags = [];
  };
  meta = record {
    name = codes "cirros";
    version = codes "6";
    description = [];
    example_user_data = record { username = []; authorized_keys = [] };
    env_variables = empty;
    arch = codes "x86_64";
    is_stable = false;
  };
})

abbrev entry : Bool → Entry Artifact
entry use_for_docs = record {
  artifacts = cirros ∷ [];
  use_for_docs = use_for_docs;
  use_for_latest = false;
  skip_when_not_focused = false;
}

published_run :
    (run good_net outside texts (options false) (entry false ∷ entry true ∷ []) tt).0 ≡ ok tt
unfolding run ◌>>=◌ containerdisks.Medius.Docs.Publish.publish_entries
    containerdisks.Registry.should_skip containerdisks.Medius.Docs.Publish.publish_entry
    containerdisks.Medius.Docs.Publish.or_failure inspect Generic.inspect
    containerdisks.Medius.Docs.Publish.publish_description containerdisks.Effects.on_error
    containerdisks.Quay.update containerdisks.Quay.json containerdisks.Quay.header
    containerdisks.Quay.check_response containerdisks.Effects.finally
    containerdisks.Medius.Docs.Publish.conclude containerdisks.Medius.Docs.Publish.at_quay
published_run = refl

run-Published_example :
    (org : Text) × (get_quay_org (codes "quay.io/c") ≡ ok org)
    × HasEntry good_net outside texts (options false) (entry false ∷ entry true ∷ [])
    × Published good_net outside texts
        (options false)
        (new_quay_client (codes "token") org)
        (entry false ∷ entry true ∷ [])
        (run good_net outside texts (options false) (entry false ∷ entry true ∷ []) tt).1
run-Published_example =
    run-Published good_net outside texts (options false) refl (entry false ∷ entry true ∷ []) tt
      published_run

run_dry_example :
    All
      (IsInspection good_net outside texts (options true) refl)
      (run good_net outside texts (options true) (entry true ∷ []) tt).1
run_dry_example = run_dry good_net outside texts (options true) refl (entry true ∷ []) tt
