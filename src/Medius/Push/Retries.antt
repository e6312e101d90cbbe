-- ===== src/Medius/Push/Retries.antt =====
-- How often a download is tried.
use containerdisks.Base.{ℕ, zero, suc, ◌≡◌, ◌≤◌, refl, ap, List, [], ◌∷◌, All, Text, length, arith}
use containerdisks.Go.Result.{Result, Error, ok, err, panic}
use containerdisks.Api.{Options, ArtifactDetails}
use containerdisks.Effects.{call, raise, on_error, ◌>>=◌}
use containerdisks.Medius.Env.{Env, Event, created, removed, pushed, pushed_index, requested}
use containerdisks.Medius.Push.{attempt, get_artifact_reader}

abbrev pub requests : List Event → List Text
requests [] = []
requests (requested url ∷ es) = url ∷ requests es
requests (pushed n ∷ es) = requests es
requests (pushed_index n ∷ es) = requests es
requests (created f ∷ es) = requests es
requests (removed f ∷ es) = requests es

-- What `n` rounds may leave behind: a failure used all of them.
abbrev pub IsTried : {A : Type 0} → ℕ → Text → Result A → List Event → Type 0
IsTried n url r es =
    All (λ u. u ≡ url) (requests es)
    × (length (requests es) ≤ n)
    × ((e : Error) → r ≡ err e → length (requests es) ≡ n)

module _ (V : Env) (options : Options) where
  open V use {World, Reader}

  one_more :
      {r : Result Reader} (n : ℕ) (url : Text) (es : List Event)
      → IsTried n url r es
      → IsTried (suc n) url r (requested url ∷ es)
  one_more n url es (same, le, all) = ((refl, same), omega arith, λ e h. ap suc (all e h))

  attempt-IsTried :
      (n : ℕ) (url : Text) (last : Error) (get : World → Result Reader × World) (w : World)
      → IsTried n url
          ((attempt V options n url last get) w).0
          ((attempt V options n url last get) w).1
  unfolding attempt call raise on_error ◌>>=◌
  attempt-IsTried zero url last get w = (tt, omega arith, λ e h. refl)
  attempt-IsTried (suc n) url last get w =
      go (λ e w'. attempt-IsTried n url e get w') (get w).0 refl
    where
      go :
          ((e : Error) (w' : World)
            → IsTried n url
                ((attempt V options n url e get) w').0
                ((attempt V options n url e get) w').1)
          → (r : Result Reader) → (get w).0 ≡ r
          → IsTried
              (suc n)
              url
              ((attempt V options (suc n) url last get) w).0
              ((attempt V options (suc n) url last get) w).1
      go rest (ok reader) h = rw h ((refl, tt), omega arith, λ e k. absurd (cc k))
      go rest (err e) h =
          rw h (one_more n url ((attempt V options n url e get) (get w).1).1 (rest e (get w).1))
      go rest (panic m) h = rw h ((refl, tt), omega arith, λ e k. absurd (cc k))

  -- A download is requested from the artifact's own address only, three times at most, and if it
  -- ends in an error, it was requested three times.
  pub get_artifact_reader-IsTried :
      (info : ArtifactDetails) (w : World)
      → IsTried 3 info.download_url
          ((get_artifact_reader V options info) w).0
          ((get_artifact_reader V options info) w).1
  unfolding get_artifact_reader
  get_artifact_reader-IsTried info w = attempt-IsTried 3 info.download_url _ _ w
