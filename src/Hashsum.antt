-- ===== src/Hashsum.antt =====
-- pkg/hashsum/hashsum.go: the lines of checksum files, and the map that they give.
pub mod Line
pub mod RoundTrip
use containerdisks.Base.{
  ℕ, ◌==◌, nat_eq, text_eq, Bool, true, false, not, ◌&&◌, ◌||◌, Option, none, some, List, [], ◌∷◌,
  Text, leb, if◌then◌else◌,
}
use containerdisks.Go.Result.{Result, ok, ◌>>=◌}
use containerdisks.Go.Strings.{trim_space}
use containerdisks.Go.Bufio.{scan_lines}
use containerdisks.Go.Maps.{Map, empty, insert}
use containerdisks.Go.Regexp.{Item, one, plus, end, match_here}

-- The type is an int in the source; only these two values are declared.
pub data ChecksumFormat : Type 0 where
  bsd gnu : ChecksumFormat

-- [a-z0-9]
abbrev pub is_hex_like : ℕ → Bool
is_hex_like c = leb b'a' c && leb c b'z' || leb b'0' c && leb c b'9'

abbrev pub is_blank : ℕ → Bool
is_blank c = c == b' '

abbrev pub is_not_paren : ℕ → Bool
is_not_paren c = not (c == b')')

-- `\S`: all but \t, \n, \f, \r and the blank.
abbrev pub is_word : ℕ → Bool
is_word c = not (c == 9 || c == 10 || c == 12 || c == 13 || c == b' ')

abbrev pub is_char : ℕ → ℕ → Bool
is_char c d = d == c

-- `^SHA256 +\((?P<name>[^)]+)\) += +(?P<checksum>[a-z0-9]+)$`
abbrev pub bsd_line_rex : List Item
bsd_line_rex =
    one (is_char b'S')
    ∷ one (is_char b'H')
    ∷ one (is_char b'A')
    ∷ one (is_char b'2')
    ∷ one (is_char b'5')
    ∷ one (is_char b'6')
    ∷ plus false is_blank
    ∷ one (is_char b'(')
    ∷ plus true is_not_paren
    ∷ one (is_char b')')
    ∷ plus false is_blank
    ∷ one (is_char b'=')
    ∷ plus false is_blank
    ∷ plus true is_hex_like
    ∷ end
    ∷ []

-- `^(?P<checksum>[0-9a-z]+) +(?P<name>\S+)$`
abbrev pub gnu_line_rex : List Item
gnu_line_rex = plus true is_hex_like ∷ plus false is_blank ∷ plus true is_word ∷ end ∷ []

-- The asterisk by which sha256sum marks a binary file.
unfoldable pub drop_star : Text → Text
drop_star [] = []
drop_star (c ∷ s) = if c == b'*' then s else c ∷ s

-- The name and the checksum that the groups of a match hold.
unfoldable pub named_groups : ChecksumFormat → List Text → Option (Text × Text)
unfolding drop_star
named_groups bsd (name ∷ checksum ∷ []) = some (name, checksum)
named_groups gnu (checksum ∷ name ∷ []) = some (drop_star name, checksum)
named_groups _ _ = none

abbrev pub line_rex : ChecksumFormat → List Item
line_rex bsd = bsd_line_rex
line_rex gnu = gnu_line_rex

-- A trimmed line as a pair, if the pattern matches it.
unfoldable pub parse_line : ChecksumFormat → Text → Option (Text × Text)
unfolding named_groups match_here trim_space
parse_line format line = elim (match_here (line_rex format) (trim_space line)) [
  | none ↦ none
  | some m ↦ named_groups format m.groups
]

-- One round of the loop over the lines.
unfoldable pub add_line : ChecksumFormat → Map Text → Text → Map Text
unfolding parse_line
add_line format checksums line = elim (parse_line format line) [
  | none ↦ checksums
  | some (name, checksum) ↦ insert name checksum checksums
]

unfoldable pub add_lines : ChecksumFormat → Map Text → List Text → Map Text
unfolding add_line
add_lines format checksums [] = checksums
add_lines format checksums (line ∷ lines) = add_lines format (add_line format checksums line) lines

unfoldable pub parse : Text → ChecksumFormat → Result (Map Text)
unfolding add_lines scan_lines
parse stream format = do lines ← scan_lines stream; ok (add_lines format empty lines)
