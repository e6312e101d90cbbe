-- ===== src/Medius/Results/Exit.antt =====
-- How the commands end: what they write, and whether the program fails.
use containerdisks.Base.{◌≡◌, Bool, true, false, Option, none, List, [], ◌∷◌, Text, ◌⊎◌}
use containerdisks.Go.Result.{Error, Result, ok}
use containerdisks.Go.Maps.{Map}
use containerdisks.Api.{ArtifactResult, Options}
use containerdisks.Effects.{branch, pure, raise, ◌>>=◌}
use containerdisks.Medius.Results.{
  Files, Write, permission_user_read_write, results_file, write_results_file, no_match, report,
}

module _ (F : Files) (options : Options) where
  open F use {World}

  -- The results are written to the results file, once.
  abbrev pub WritesOnce : Map ArtifactResult → List Write → Type 0
  WritesOnce final es =
      (content : Text) × (F.marshal_indent final ≡ ok content)
      × (es ≡ record { file = results_file F options; content = content } ∷ [])

  -- The map of results can be encoded, and the file can be written.
  abbrev pub CanWrite : Map ArtifactResult → Type 0
  CanWrite final =
      (content : Text) × (F.marshal_indent final ≡ ok content)
      × ((w : World)
          → (F.write_file (results_file F options) content permission_user_read_write w).0 ≡ ok tt)

  -- `silent` is a dry run, `matched` and `error` come from the pool, `final` is what is to be
  -- written.
  pub record IsEnd (matched silent no_fail : Bool) (error : Option Error)
      (final : Map ArtifactResult) (r : Result (Unit {0})) (es : List Write) : Type 0 where
    pub writes : (es ≡ []) ⊎ ((matched ≡ true) × (silent ≡ false) × WritesOnce final es)
    pub success :
        r ≡ ok tt
        → (matched ≡ true)
          × (silent ≡ false → WritesOnce final es)
          × ((no_fail ≡ true) ⊎ (error ≡ none))
    pub succeeds :
        matched ≡ true
        → (silent ≡ true) ⊎ CanWrite final
        → (no_fail ≡ true) ⊎ (error ≡ none)
        → r ≡ ok tt

  -- The common part of the commands, which differ in when they write and in what they forgive.
  abbrev end_of :
      Bool
      → Bool
      → Bool
      → Option Error
      → Map ArtifactResult
      → World
      → Result (Unit {0}) × List Write × World
  end_of matched silent no_fail error final =
      branch matched (pure tt) (raise (no_match F options)) >>= λ _.
      branch silent (pure tt) (write_results_file F options final) >>= λ _.
      report F options no_fail error
