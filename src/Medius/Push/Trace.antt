-- ===== src/Medius/Push/Trace.antt =====
-- The names that a trace pushes, and the files that it creates and removes, each as a view of it.
use containerdisks.Base.{◌≡◌, refl, ap, List, [], ◌∷◌, ◌++◌, All, Text}
use containerdisks.Medius.Env.{Event, created, removed, pushed, pushed_index, requested}

abbrev pub pushes : List Event → List Text
pushes [] = []
pushes (pushed name ∷ es) = name ∷ pushes es
pushes (pushed_index name ∷ es) = name ∷ pushes es
pushes (created file ∷ es) = pushes es
pushes (removed file ∷ es) = pushes es
pushes (requested url ∷ es) = pushes es

abbrev pub creations : List Event → List Text
creations [] = []
creations (created file ∷ es) = file ∷ creations es
creations (pushed name ∷ es) = creations es
creations (pushed_index name ∷ es) = creations es
creations (removed file ∷ es) = creations es
creations (requested url ∷ es) = creations es

abbrev pub removals : List Event → List Text
removals [] = []
removals (removed file ∷ es) = file ∷ removals es
removals (pushed name ∷ es) = removals es
removals (pushed_index name ∷ es) = removals es
removals (created file ∷ es) = removals es
removals (requested url ∷ es) = removals es

abbrev pub IsNoPush : Event → Type 0
IsNoPush (pushed name) = ⊥
IsNoPush (pushed_index name) = ⊥
IsNoPush _ = Unit

abbrev pub IsNoCreation : Event → Type 0
IsNoCreation (created file) = ⊥
IsNoCreation _ = Unit

abbrev pub IsNoRemoval : Event → Type 0
IsNoRemoval (removed file) = ⊥
IsNoRemoval _ = Unit

pub pushes-append : (es fs : List Event) → pushes (es ++ fs) ≡ pushes es ++ pushes fs
pushes-append [] fs = refl
pushes-append (pushed n ∷ es) fs = ap (λ ns. n ∷ ns) (pushes-append es fs)
pushes-append (pushed_index n ∷ es) fs = ap (λ ns. n ∷ ns) (pushes-append es fs)
pushes-append (created n ∷ es) fs = pushes-append es fs
pushes-append (removed n ∷ es) fs = pushes-append es fs
pushes-append (requested n ∷ es) fs = pushes-append es fs

pub creations-append : (es fs : List Event) → creations (es ++ fs) ≡ creations es ++ creations fs
creations-append [] fs = refl
creations-append (created n ∷ es) fs = ap (λ ns. n ∷ ns) (creations-append es fs)
creations-append (pushed_index n ∷ es) fs = creations-append es fs
creations-append (pushed n ∷ es) fs = creations-append es fs
creations-append (removed n ∷ es) fs = creations-append es fs
creations-append (requested n ∷ es) fs = creations-append es fs

pub removals-append : (es fs : List Event) → removals (es ++ fs) ≡ removals es ++ removals fs
removals-append [] fs = refl
removals-append (removed n ∷ es) fs = ap (λ ns. n ∷ ns) (removals-append es fs)
removals-append (pushed_index n ∷ es) fs = removals-append es fs
removals-append (pushed n ∷ es) fs = removals-append es fs
removals-append (created n ∷ es) fs = removals-append es fs
removals-append (requested n ∷ es) fs = removals-append es fs

pub pushes-nil : (es : List Event) → All IsNoPush es → pushes es ≡ []
pushes-nil [] h = refl
pushes-nil (pushed n ∷ es) h = absurd h.0
pushes-nil (pushed_index n ∷ es) h = absurd h.0
pushes-nil (created n ∷ es) h = pushes-nil es h.1
pushes-nil (removed n ∷ es) h = pushes-nil es h.1
pushes-nil (requested n ∷ es) h = pushes-nil es h.1

pub creations-nil : (es : List Event) → All IsNoCreation es → creations es ≡ []
creations-nil [] h = refl
creations-nil (created n ∷ es) h = absurd h.0
creations-nil (pushed_index n ∷ es) h = creations-nil es h.1
creations-nil (pushed n ∷ es) h = creations-nil es h.1
creations-nil (removed n ∷ es) h = creations-nil es h.1
creations-nil (requested n ∷ es) h = creations-nil es h.1

pub removals-nil : (es : List Event) → All IsNoRemoval es → removals es ≡ []
removals-nil [] h = refl
removals-nil (removed n ∷ es) h = absurd h.0
removals-nil (pushed_index n ∷ es) h = removals-nil es h.1
removals-nil (pushed n ∷ es) h = removals-nil es h.1
removals-nil (created n ∷ es) h = removals-nil es h.1
removals-nil (requested n ∷ es) h = removals-nil es h.1

-- A reading of a trace, with the events that it does not see.
pub record View : Type 1 where
  pub names : List Event → List Text
  pub IsSilent : Event → Type 0
  pub names-append : (es fs : List Event) → names (es ++ fs) ≡ names es ++ names fs
  pub names-nil : (es : List Event) → All IsSilent es → names es ≡ []

abbrev pub push_view : View
push_view = record {
  names = pushes;
  IsSilent = IsNoPush;
  names-append = pushes-append;
  names-nil = pushes-nil;
}

abbrev pub creation_view : View
creation_view = record {
  names = creations;
  IsSilent = IsNoCreation;
  names-append = creations-append;
  names-nil = creations-nil;
}

abbrev pub removal_view : View
removal_view = record {
  names = removals;
  IsSilent = IsNoRemoval;
  names-append = removals-append;
  names-nil = removals-nil;
}
