-- ===== src/Medius/Results.antt =====
-- cmd/medius/images: what the commands push, verify and promote do around the pool, with the results
-- file (common.go, push.go, verify.go, promote.go). A fatal error ends the program: here it is raised.
pub mod Exit
pub mod Stages
pub mod Pipeline
use containerdisks.Base.{
  ℕ, Bool, false, Option, none, some, List, [], ◌∷◌, ◌++◌, Text, codes, ◌==◌, text_eq, text_beq,
  if◌then◌else◌,
}
use containerdisks.Go.Result.{Error, plain, Result}
use containerdisks.Go.Maps.{Map, empty, insert}
use containerdisks.Api.{ArtifactResult, Options}
use containerdisks.Effects.{branch, Eff, pure, raise, lift, call, ◌>>=◌, ◌>>◌}
use containerdisks.Medius.Workers.{WorkerResult, PoolEnd}

-- The files, and encoding/json on a map of results.
pub record Files : Type 1 where
  pub World : Type 0
  pub read_file : Text → World → Result Text × World
  pub write_file : Text → Text → ℕ → World → Result (Unit {0}) × World
  pub marshal_indent : Map ArtifactResult → Result Text
  pub unmarshal : Text → Result (Map ArtifactResult)

-- A call that writes a file.
pub record Write : Type 0 where
  pub file : Text
  pub content : Text

-- The loop over the channel of the results.
unfoldable pub collect : Map ArtifactResult → List WorkerResult → Map ArtifactResult
unfolding insert
collect results [] = results
collect results (r ∷ rs) = collect (insert r.key r.value results) rs

-- 0o600
abbrev pub permission_user_read_write : ℕ
permission_user_read_write = 384

-- An empty target registry is the source registry.
unfoldable pub fill_target_registry : Options → Options
unfolding text_beq
fill_target_registry options = record options {
  publish_images_options = record options.publish_images_options {
    target_registry =
        if options.publish_images_options.target_registry == []
        then options.publish_images_options.source_registry
        else options.publish_images_options.target_registry;
  };
}

module _ (F : Files) (options : Options) where
  open F use {World}

  abbrev pub M : Type 0 → Type 0
  M A = Eff World Write A

  abbrev pub results_file : Text
  results_file = options.images_options.results_file

  unfoldable pub read_results_file : M (Map ArtifactResult)
  read_results_file = do content ← call [] (F.read_file results_file); lift (F.unmarshal content)

  unfoldable pub write_results_file : Map ArtifactResult → M (Unit {0})
  write_results_file results = do
    content ← lift (F.marshal_indent results)
    call (record { file = results_file; content = content } ∷ [])
        (F.write_file results_file content permission_user_read_write)

  abbrev pub no_match : Error
  no_match =
      plain
        (codes "no artifact was processed, focus '" ++ (options.focus ++ codes "' did not match"))

  -- `if !focusMatched { … }`
  unfoldable pub check_matched : PoolEnd → M (Unit {0})
  check_matched end = branch end.matched (pure tt) (raise no_match)

  -- An error of a worker is fatal, or with --no-fail it is logged.
  unfoldable pub report : Bool → Option Error → M (Unit {0})
  report no_fail none = pure tt
  report no_fail (some e) = branch no_fail (pure tt) (raise e)

  -- The end of the push command, behind the pool.
  unfoldable pub end_push : PoolEnd → M (Unit {0})
  unfolding collect
  end_push end = do
    check_matched end
    branch options.dry_run (pure tt) (write_results_file (collect empty end.results))
    report options.publish_images_options.no_fail end.error

  -- The end of the verify command: `results` is what its results file held.
  unfoldable pub end_verify : Map ArtifactResult → PoolEnd → M (Unit {0})
  unfolding collect
  end_verify results end = do
    check_matched end
    write_results_file (collect results end.results)
    report options.verify_images_options.no_fail end.error

  -- The end of the promote command.
  unfoldable pub end_promote : Map ArtifactResult → PoolEnd → M (Unit {0})
  unfolding collect
  end_promote results end = do
    check_matched end
    branch options.dry_run (pure tt) (write_results_file (collect results end.results))
    report false end.error
