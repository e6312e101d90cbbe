-- ===== src/Go/Path.antt =====
-- Package path: Clean and Join.
pub mod Last
use containerdisks.Base.{
  ℕ, Bool, true, false, ◌||◌, List, [], ◌∷◌, Text, codes, ◌==◌, nat_eq, text_eq, if◌then◌else◌,
}
use containerdisks.Go.Strings.{split, join, has_prefix}
use mathlib.Core.List.{reverse}

abbrev slash : ℕ
slash = b'/'

-- ".." takes back the element before it; at the root it is dropped, elsewhere it stays.
unfoldable pub go_up : Bool → List Text → List Text
go_up true [] = []
go_up false [] = codes ".." ∷ []
go_up rooted (e ∷ kept) = if e == codes ".." then codes ".." ∷ e ∷ kept else kept

-- The elements kept so far, the last one first.
unfoldable pub resolve : Bool → List Text → List Text → List Text
unfolding go_up
resolve rooted kept [] = reverse kept
resolve rooted kept (e ∷ es) =
    resolve rooted
      (if e == [] || e == codes "."
        then kept
        else if e == codes ".."
        then go_up rooted kept
        else e ∷ kept)
      es

abbrev or_dot : Text → Text
or_dot [] = codes "."
or_dot (c ∷ s) = c ∷ s

unfoldable pub clean : Text → Text
unfolding resolve split join has_prefix
clean s =
    let rooted = has_prefix s (slash ∷ []) in
    let out = join (resolve rooted [] (split s slash)) slash in
    if rooted then slash ∷ out else or_dot out

-- The empty elements in front are left out; those behind leave slashes for `clean`.
unfoldable pub drop_empty : List Text → List Text
drop_empty [] = []
drop_empty ([] ∷ es) = drop_empty es
drop_empty ((c ∷ s) ∷ es) = (c ∷ s) ∷ es

unfoldable pub clean_joined : List Text → Text
unfolding clean
clean_joined [] = []
clean_joined (e ∷ es) = clean (join (e ∷ es) slash)

unfoldable pub path_join : List Text → Text
unfolding clean_joined drop_empty
path_join es = clean_joined (drop_empty es)
