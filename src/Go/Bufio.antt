-- ===== src/Go/Bufio.antt =====
-- bufio.Scanner with its default split function and buffer, over a reader that does not fail.
pub mod Lines
use mathlib.Core.List.{reverse}
use containerdisks.Base.{
  ℕ, Bool, List, [], ◌∷◌, map, Text, codes, leb, length, any, ◌==◌, nat_eq, if◌then◌else◌,
}
use containerdisks.Go.Result.{plain, Result, ok, err}
use containerdisks.Go.Strings.{split}

-- bufio.MaxScanTokenSize: a line, with its "\n", has to fit in a buffer of this size.
abbrev pub max_scan_token_size : ℕ
max_scan_token_size = 65536

unfoldable pub drop_first_cr : Text → Text
drop_first_cr [] = []
drop_first_cr (c ∷ s) = if c == 13 then s else c ∷ s

-- One "\r" at the end of a line is not part of it.
unfoldable pub drop_cr : Text → Text
unfolding drop_first_cr
drop_cr s = reverse (drop_first_cr (reverse s))

-- An empty text behind the last "\n" is no line.
unfoldable pub drop_empty_last : List Text → List Text
drop_empty_last [] = []
drop_empty_last ([] ∷ []) = []
drop_empty_last ((c ∷ s) ∷ []) = (c ∷ s) ∷ []
drop_empty_last (p ∷ q ∷ ps) = p ∷ drop_empty_last (q ∷ ps)

abbrev pub too_long : Text → Bool
too_long s = leb max_scan_token_size (length s)

-- The lines that `Scan` yields, unless one does not fit: then `Err` is bufio.ErrTooLong.
unfoldable pub scan_lines : Text → Result (List Text)
unfolding split drop_cr drop_empty_last
scan_lines s =
    let parts = drop_empty_last (split s 10) in
    if any too_long parts
    then err (plain (codes "bufio.Scanner: token too long"))
    else ok (map drop_cr parts)
