-- ===== src/Repository/Images/Closed.antt =====
-- The source of an image is closed on every path, and an error of the close hides any other.
use containerdisks.Base.{◌≡◌, List, [], ◌∷◌, ◌⊎◌}
use containerdisks.Go.Result.{Error, Result, ok, err}
use containerdisks.Effects.Leaves.{Leaves, IsStop}
use containerdisks.Repository.{ImageInfo}
use containerdisks.Repository.Images.{Libraries, Event, opened, closed, close_error}

module _ (L : Libraries) where
  open L use {World, Source}

  -- The source was opened, and closed behind all else. On success it was closed without an error, and
  -- the details are those of an inspection; if the close failed, its error is the result's, unless
  -- the call panics.
  pub record IsClosed (r : Result ImageInfo) (es : List (Event Source)) : Type 0 where
    pub source : Source
    pub events : es ≡ opened source ∷ closed source ∷ []
    pub at : World
    pub success :
        (info : ImageInfo)
        → r ≡ ok info
        → ((L.close source at).0 ≡ ok tt)
          × ((img : L.Parsed) × (w : World) × ((L.inspect img w).0 ≡ ok info))
    pub masked : (e x : Error) → (L.close source at).0 ≡ err e → r ≡ err x → x ≡ close_error e

  -- Or no source was opened, and the call failed.
  abbrev pub IsLookup : Result ImageInfo → List (Event Source) → Type 0
  IsLookup r es = ((es ≡ []) × IsStop r) ⊎ IsClosed r es

  abbrev Inspected : ImageInfo → Type 0
  Inspected info = (img : L.Parsed) × (w : World) × ((L.inspect img w).0 ≡ ok info)

  -- Opening the source: it failed with no event, or the source is open.
  abbrev Opens : Result Source → List (Event Source) → Type 0
  Opens r es = (IsStop r × (es ≡ [])) ⊎ ((src : Source) × (r ≡ ok src) × (es ≡ opened src ∷ []))
