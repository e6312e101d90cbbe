-- ===== src/Tests/PushTests.antt =====
-- cmd/medius/images/push.go in a small environment.
use containerdisks.Base.{
  ℕ, zero, suc, ◌<◌, ◌≡◌, ◌≢◌, refl, sym, subst, map, arith, Bool, true, false, some, none, List,
  [], ◌∷◌, All, Text, codes,
}
use containerdisks.Go.Result.{Result, ok, err, plain}
use containerdisks.Go.Maps.{empty}
use containerdisks.Go.Path.{path_join}
use containerdisks.Go.Strings.Split.{Lacks}
use containerdisks.Effects.Success.{ok-injective}
use containerdisks.Medius.Tags.Joined.{IsPlain}
use containerdisks.Medius.Push.Addressed.{run_entry-addresses}
use containerdisks.Go.Time.{Time}
use containerdisks.Api.{pos, Options, Metadata, ArtifactDetails, sha256}
use containerdisks.Build.{ImageLib, label_sha_sum}
use containerdisks.Repository.{ImageInfo}
use containerdisks.Registry.{Entry}
use containerdisks.Effects.{◌>>=◌}
use containerdisks.Medius.Env.{Env, full, created, removed, pushed, requested}
use containerdisks.Medius.Push.{run_entry, get_artifact, get_artifact_reader}
use containerdisks.Medius.Push.Trace.{IsNoPush, pushes, removals, creations}
use containerdisks.Medius.Push.Published.{tags_for, run_entry-pushes}
use containerdisks.Medius.Push.Retries.{IsTried, get_artifact_reader-IsTried}
use containerdisks.Medius.Push.Checked.{IsRead, IsChecked, get_artifact-IsChecked}
use containerdisks.Medius.Push.Nothing.{AllCurrent, run_entry-none}
use containerdisks.Medius.Push.Cleanup.{run_entry-removals}
use containerdisks.Medius.Push.DryRun.{run_entry-IsNoPush}

-- An image is its file.
abbrev images : ImageLib
images = record {
  Layer = Text;
  Image = Text;
  Index = List Text;
  Platform = Unit {0};
  Descriptor = Unit {0};
  layer = λ path. ok path;
  with_layer = λ layer. ok layer;
  config_file = λ image. ok (record {
    architecture = [];
    os = [];
    config = record { labels = empty; env = []; entrypoint = [] };
  });
  set_config_file = λ image cf. ok image;
  descriptor = λ image. ok tt;
  platform = λ cf. tt;
  set_platform = λ p d. d;
  append_manifests = λ xs. [];
}

abbrev metadata : ℕ → Metadata
metadata n = record {
  name = codes "cirros";
  version = codes "6";
  description = [];
  example_user_data = record { username = []; authorized_keys = [] };
  env_variables = empty;
  arch = codes "x86_64";
  is_stable = false;
}

abbrev details : ArtifactDetails
details = record {
  checksum = codes "ab";
  checksum_hash = sha256;
  download_url = codes "https://e/x.img";
  image_architecture = codes "amd64";
  compression = [];
  additional_unique_tags = codes "6-1" ∷ [];
}

abbrev image_info : Text → ImageInfo
image_info checksum = record {
  tag = [];
  created = none;
  docker_version = [];
  labels = (label_sha_sum, checksum) ∷ [];
  architecture = codes "amd64";
  os = codes "linux";
  layers = [];
  env = [];
}

-- The world is the number of requests that still fail.
abbrev get : ℕ → Result (Unit {0}) × ℕ
get zero = (ok tt, zero)
get (suc n) = (err (plain (codes "timeout")), n)

abbrev pub env : Env
env = record {
  World = ℕ;
  Artifact = ℕ;
  Reader = Unit {0};
  Stream = Unit {0};
  images = images;
  metadata = metadata;
  inspect = λ a w. (ok details, w);
  canceled = λ w. (ok false, w);
  image_metadata = λ name arch insecure w. (ok (image_info (codes "cd")), w);
  push_image = λ image name w. (ok tt, w);
  push_image_index = λ index name w. (ok tt, w);
  get_with_checksum = λ url hash w. get w;
  plain_stream = λ r. r;
  gzip_stream = λ r w. (ok r, w);
  xz_stream = λ r w. (ok r, w);
  create_temp = λ w. (ok (codes "/tmp/c1"), w);
  chunks = λ s. full ∷ full ∷ [];
  checksum = λ r w. (ok (codes "ab"), w);
  close = λ r w. (ok tt, w);
  remove = λ file w. (ok tt, w);
  key_order = λ ks. ks;
  manifest_unknown = 1;
  name_unknown = 2;
}

abbrev options : Bool → Options
options dry_run = record {
  allow_insecure_registry = false;
  dry_run = dry_run;
  focus = [];
  images_options = record { results_file = codes "results.json"; workers = pos 1 };
  publish_docs_options = record { registry = []; token_file = [] };
  publish_images_options = record {
    force_build = false;
    no_fail = false;
    source_registry = codes "quay.io/c";
    target_registry = codes "quay.io/c";
  };
  promote_image_options = record { source_registry = []; target_registry = [] };
  verify_images_options = record {
    registry = [];
    namespace = [];
    no_fail = false;
    timeout = 0;
    target_architecture = [];
  };
}

abbrev pub entry : Entry ℕ
entry = record {
  artifacts = 0 ∷ [];
  use_for_docs = true;
  use_for_latest = true;
  skip_when_not_focused = false;
}

abbrev pub noon : Time
noon = record { year = 26; month = 7; day = 1; hour = 12; minute = 0 }

run_entry-IsNoPush_example : All IsNoPush (run_entry env (options true) entry noon 1).1
run_entry-IsNoPush_example = run_entry-IsNoPush env (options true) refl entry noon 1

one_retry :
    (run_entry env (options false) entry noon 1).1
    ≡ requested (codes "https://e/x.img")
      ∷ requested (codes "https://e/x.img")
      ∷ created (codes "/tmp/c1")
      ∷ pushed (codes "quay.io/c/cirros:6-2607011200")
      ∷ pushed (codes "quay.io/c/cirros:6-1")
      ∷ pushed (codes "quay.io/c/cirros:6")
      ∷ pushed (codes "quay.io/c/cirros:latest")
      ∷ removed (codes "/tmp/c1")
      ∷ []
unfolding run_entry containerdisks.Medius.Push.run_artifacts ◌>>=◌ containerdisks.Effects.on_error
    containerdisks.Medius.Push.rebuild_needed containerdisks.Medius.Push.any_changed
    containerdisks.Medius.Push.get_image_checksum containerdisks.Base.text_beq
    containerdisks.Go.Maps.lookup containerdisks.Medius.Push.build_and_push
    containerdisks.Medius.Push.check_canceled containerdisks.Medius.Push.build_images
    containerdisks.Medius.Push.get_artifact containerdisks.Medius.Push.get_artifact_reader
    containerdisks.Medius.Push.attempt containerdisks.Effects.finally
    containerdisks.Medius.Push.read_artifact containerdisks.Medius.Push.open_stream
    containerdisks.Api.describe containerdisks.Build.container_disk
    containerdisks.Build.container_disk_config containerdisks.Effects.branch
    containerdisks.Effects.call containerdisks.Effects.call_ok containerdisks.Effects.lift
    containerdisks.Effects.pure containerdisks.Effects.raise containerdisks.Go.Maps.keys
    containerdisks.Go.Path.clean containerdisks.Go.Path.clean_joined
    containerdisks.Go.Path.drop_empty containerdisks.Go.Path.go_up containerdisks.Go.Path.path_join
    containerdisks.Go.Path.resolve containerdisks.Go.Strings.join containerdisks.Go.Strings.split
    containerdisks.Go.Time.format_stamp containerdisks.Go.Time.two_digits
    containerdisks.Medius.Push.cleanup_artifacts containerdisks.Medius.Push.copy_chunks
    containerdisks.Medius.Push.publish containerdisks.Medius.Push.publish_all
    containerdisks.Medius.Push.push_image containerdisks.Medius.Push.verify_checksum
    containerdisks.Medius.Tags.prepare_tags containerdisks.Medius.Tags.unique_names
one_retry = refl

abbrev pushed_tags : List Text
pushed_tags =
    codes "cirros:6-2607011200" ∷ codes "cirros:6-1" ∷ codes "cirros:6" ∷ codes "cirros:latest" ∷ []

pushed_run : (run_entry env (options false) entry noon 1).0 ≡ ok (some pushed_tags)
unfolding run_entry containerdisks.Medius.Push.run_artifacts ◌>>=◌ containerdisks.Effects.on_error
    containerdisks.Medius.Push.rebuild_needed containerdisks.Medius.Push.any_changed
    containerdisks.Medius.Push.get_image_checksum containerdisks.Base.text_beq
    containerdisks.Go.Maps.lookup containerdisks.Medius.Push.build_and_push
    containerdisks.Medius.Push.check_canceled containerdisks.Medius.Push.build_images
    containerdisks.Medius.Push.get_artifact containerdisks.Medius.Push.get_artifact_reader
    containerdisks.Medius.Push.attempt containerdisks.Effects.finally
    containerdisks.Medius.Push.read_artifact containerdisks.Medius.Push.open_stream
    containerdisks.Api.describe containerdisks.Build.container_disk
    containerdisks.Build.container_disk_config containerdisks.Effects.branch
    containerdisks.Effects.call containerdisks.Effects.call_ok containerdisks.Effects.lift
    containerdisks.Effects.pure containerdisks.Effects.raise containerdisks.Go.Maps.keys
    containerdisks.Go.Path.clean containerdisks.Go.Path.clean_joined
    containerdisks.Go.Path.drop_empty containerdisks.Go.Path.go_up containerdisks.Go.Path.path_join
    containerdisks.Go.Path.resolve containerdisks.Go.Strings.join containerdisks.Go.Strings.split
    containerdisks.Go.Time.format_stamp containerdisks.Go.Time.two_digits
    containerdisks.Medius.Push.cleanup_artifacts containerdisks.Medius.Push.copy_chunks
    containerdisks.Medius.Push.publish containerdisks.Medius.Push.publish_all
    containerdisks.Medius.Push.push_image containerdisks.Medius.Push.verify_checksum
    containerdisks.Medius.Tags.prepare_tags containerdisks.Medius.Tags.unique_names
pushed_run = refl

run_entry-pushes_example :
    (first : ℕ) × (others : List ℕ) × (info : ArtifactDetails) × (entry.artifacts ≡ first ∷ others)
    × ((env.inspect first 1).0 ≡ ok info)
    × (pushes (run_entry env (options false) entry noon 1).1
        ≡ tags_for env (options false) (codes "quay.io/c") first entry noon info)
    × (pushed_tags ≡ tags_for env (options false) [] first entry noon info)
run_entry-pushes_example =
    run_entry-pushes env (options false) refl entry noon 1 pushed_tags pushed_run

metadata-IsPlain : (n : ℕ) → IsPlain (metadata n)
metadata-IsPlain n = record {
  name = record {
    one = (
      above 99 (omega arith),
      (
        above 105 (omega arith),
        (
          above 114 (omega arith),
          (above 114 (omega arith), (above 111 (omega arith), (above 115 (omega arith), tt))),
        ),
      ),
    );
    present = λ e. cc e;
    not_dot = λ e. not_a_dot (subst (All (λ x. x ≡ b'.')) (sym e) (refl, tt));
    not_dots = λ e. not_a_dot (subst (All (λ x. x ≡ b'.')) (sym e) (refl, (refl, tt)));
  };
  version = (above 54 (omega arith), tt);
}
  where
    above : (c : ℕ) → 47 < c → c ≢ b'/'
    above c h e = omega (arith, h, e)

    not_a_dot : All (λ x. x ≡ b'.') (codes "cirros") → ⊥
    not_a_dot h = omega (arith, h.0)

clear_tags :
    (a w : ℕ) (info : ArtifactDetails)
    → (env.inspect a w).0 ≡ ok info
    → All (Lacks b'/') info.additional_unique_tags
clear_tags a w info h =
    subst (λ (d : ArtifactDetails). All (Lacks b'/') d.additional_unique_tags) (ok-injective h)
      ((above 54 (omega arith), ((λ e. omega (arith, e)), (above 49 (omega arith), tt))), tt)
  where
    above : (c : ℕ) → 47 < c → c ≢ b'/'
    above c h e = omega (arith, h, e)

run_entry-addresses_example :
    pushes (run_entry env (options false) entry noon 1).1
    ≡ map (λ tag. path_join (codes "quay.io/c" ∷ tag ∷ [])) pushed_tags
run_entry-addresses_example =
    run_entry-addresses env (options false) refl metadata-IsPlain clear_tags entry noon 1
      pushed_tags pushed_run

run_entry-removals_example :
    removals (run_entry env (options false) entry noon 1).1
    ≡ creations (run_entry env (options false) entry noon 1).1
run_entry-removals_example =
    run_entry-removals env (options false) (λ file w m h. cc h) entry noon 1 (some pushed_tags)
      pushed_run

get_artifact_reader-IsTried_example :
    IsTried 3
      (codes "https://e/x.img")
      (get_artifact_reader env (options false) details 5).0
      (get_artifact_reader env (options false) details 5).1
get_artifact_reader-IsTried_example = get_artifact_reader-IsTried env (options false) details 5

checked_run : (get_artifact env (options false) details 2).0 ≡ ok (codes "/tmp/c1", details)
unfolding get_artifact ◌>>=◌ containerdisks.Effects.on_error
    containerdisks.Medius.Push.rebuild_needed containerdisks.Medius.Push.any_changed
    containerdisks.Medius.Push.get_image_checksum containerdisks.Base.text_beq
    containerdisks.Go.Maps.lookup containerdisks.Medius.Push.build_and_push
    containerdisks.Medius.Push.check_canceled containerdisks.Medius.Push.build_images
    containerdisks.Medius.Push.get_artifact_reader containerdisks.Medius.Push.attempt
    containerdisks.Effects.finally containerdisks.Medius.Push.read_artifact
    containerdisks.Medius.Push.open_stream containerdisks.Api.describe
    containerdisks.Build.container_disk containerdisks.Build.container_disk_config
    containerdisks.Effects.branch containerdisks.Effects.call containerdisks.Effects.call_ok
    containerdisks.Effects.lift containerdisks.Effects.pure containerdisks.Effects.raise
    containerdisks.Go.Maps.keys containerdisks.Go.Path.clean containerdisks.Go.Path.clean_joined
    containerdisks.Go.Path.drop_empty containerdisks.Go.Path.go_up containerdisks.Go.Path.path_join
    containerdisks.Go.Path.resolve containerdisks.Go.Strings.join containerdisks.Go.Strings.split
    containerdisks.Go.Time.format_stamp containerdisks.Go.Time.two_digits
    containerdisks.Medius.Push.cleanup_artifacts containerdisks.Medius.Push.copy_chunks
    containerdisks.Medius.Push.publish containerdisks.Medius.Push.publish_all
    containerdisks.Medius.Push.push_image containerdisks.Medius.Push.verify_checksum
    containerdisks.Medius.Tags.prepare_tags containerdisks.Medius.Tags.unique_names
checked_run = refl

get_artifact-IsChecked_example :
    (checksum : Text) × IsRead env (options false) details (codes "/tmp/c1") checksum
    × IsChecked env (options false) details checksum details
get_artifact-IsChecked_example =
    get_artifact-IsChecked env (options false) details 2 (codes "/tmp/c1") details checked_run

-- The environment in which the image has the upstream checksum.
abbrev current_env : Env
current_env = record env {
  image_metadata = λ name arch insecure w. (ok (image_info (codes "ab")), w);
}

idle_run : (run_entry current_env (options false) entry noon 1).0 ≡ ok none
unfolding run_entry containerdisks.Medius.Push.run_artifacts ◌>>=◌ containerdisks.Effects.on_error
    containerdisks.Medius.Push.rebuild_needed containerdisks.Medius.Push.any_changed
    containerdisks.Medius.Push.get_image_checksum containerdisks.Base.text_beq
    containerdisks.Go.Maps.lookup containerdisks.Medius.Push.build_and_push
    containerdisks.Medius.Push.check_canceled containerdisks.Medius.Push.build_images
    containerdisks.Medius.Push.get_artifact containerdisks.Medius.Push.get_artifact_reader
    containerdisks.Medius.Push.attempt containerdisks.Effects.finally
    containerdisks.Medius.Push.read_artifact containerdisks.Medius.Push.open_stream
    containerdisks.Api.describe containerdisks.Build.container_disk
    containerdisks.Build.container_disk_config containerdisks.Effects.branch
    containerdisks.Effects.call containerdisks.Effects.call_ok containerdisks.Effects.lift
    containerdisks.Effects.pure containerdisks.Effects.raise containerdisks.Go.Maps.keys
    containerdisks.Go.Path.clean containerdisks.Go.Path.clean_joined
    containerdisks.Go.Path.drop_empty containerdisks.Go.Path.go_up containerdisks.Go.Path.path_join
    containerdisks.Go.Path.resolve containerdisks.Go.Strings.join containerdisks.Go.Strings.split
    containerdisks.Go.Time.format_stamp containerdisks.Go.Time.two_digits
    containerdisks.Medius.Push.cleanup_artifacts containerdisks.Medius.Push.copy_chunks
    containerdisks.Medius.Push.publish containerdisks.Medius.Push.publish_all
    containerdisks.Medius.Push.push_image containerdisks.Medius.Push.verify_checksum
    containerdisks.Medius.Tags.prepare_tags containerdisks.Medius.Tags.unique_names
idle_run = refl

run_entry-none_example :
    ((options false).publish_images_options.force_build ≡ false)
    × (first : ℕ) × (others : List ℕ) × (entry.artifacts ≡ first ∷ others)
    × AllCurrent current_env (options false) entry.artifacts (current_env.inspect first 1).1
run_entry-none_example = run_entry-none current_env (options false) entry noon 1 idle_run
