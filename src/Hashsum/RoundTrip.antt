-- ===== src/Hashsum/RoundTrip.antt =====
-- A checksum file that a tool wrote is read as the map from its names to their checksums.
use containerdisks.Base.{
  ◌≡◌, ◌∙◌, ◌<◌, refl, Option, none, some, List, [], ◌∷◌, arith, Text, All, length, ap, ◌==◌,
  text_eq, if◌then◌else◌,
}
use containerdisks.Go.Result.{ok}
use containerdisks.Go.Maps.{Map, empty, lookup, insert, lookup-insert}
use containerdisks.Go.Strings.Split.{Lacks}
use containerdisks.Go.Bufio.{max_scan_token_size}
use containerdisks.Go.Bufio.Lines.{IsLine, unlines, scan_lines-unlines}
use containerdisks.Hashsum.{ChecksumFormat, parse, add_line, add_lines}
use containerdisks.Hashsum.Line.{IsEntry, render_line, parse_line-render_line, render_line-no_cr}

-- Of each pair the name comes first.
abbrev pub Entries : Type 0
Entries = List (Text × Text)

-- What a format asks of an entry, so that its line is one line that the scanner's buffer holds.
pub record IsFileEntry (format : ChecksumFormat) (e : Text × Text) : Type 0 where
  pub entry : IsEntry format e.0 e.1
  pub one_line : Lacks 10 (render_line format e.0 e.1)
  pub fits : length (render_line format e.0 e.1) < max_scan_token_size

abbrev pub rendered : ChecksumFormat → Entries → List Text
rendered format [] = []
rendered format ((name, checksum) ∷ es) = render_line format name checksum ∷ rendered format es

-- The file that lists the entries.
abbrev pub render_file : ChecksumFormat → Entries → Text
render_file format es = unlines (rendered format es)

-- The checksum that the last entry of a name has.
abbrev pub last_checksum : Text → Entries → Option Text
last_checksum name [] = none
last_checksum name ((n, checksum) ∷ es) = elim (last_checksum name es) [
  | some c ↦ some c
  | none ↦ if n == name then some checksum else none
]

insert_all : Map Text → Entries → Map Text
insert_all m [] = m
insert_all m ((name, checksum) ∷ es) = insert_all (insert name checksum m) es

rendered-IsLine :
    (format : ChecksumFormat) (es : Entries)
    → All (IsFileEntry format) es
    → All IsLine (rendered format es)
rendered-IsLine format [] h = tt
rendered-IsLine format ((n, c) ∷ es) h = (
  record {
    fits = h.0.fits;
    one_line = h.0.one_line;
    no_cr = render_line-no_cr n c format h.0.entry;
  },
  rendered-IsLine format es h.1,
)

add_lines-rendered :
    (format : ChecksumFormat) (es : Entries) (m : Map Text)
    → All (IsFileEntry format) es
    → add_lines format m (rendered format es) ≡ insert_all m es
unfolding add_lines insert_all
add_lines-rendered format [] m h = refl
add_lines-rendered format ((n, c) ∷ es) m h =
    ap (λ k. add_lines format k (rendered format es)) (one_line n c h.0.entry)
    ∙ add_lines-rendered format es (insert n c m) h.1
  where
    one_line :
        (name checksum : Text)
        → IsEntry format name checksum
        → add_line format m (render_line format name checksum) ≡ insert name checksum m
    one_line name checksum e =
        unfold add_line in rw (parse_line-render_line name checksum format e, add_line) refl

abbrev or_lookup : Option Text → Option Text → Option Text
or_lookup (some c) other = some c
or_lookup none other = other

lookup-insert_all :
    (name : Text) (es : Entries) (m : Map Text)
    → lookup name (insert_all m es) ≡ or_lookup (last_checksum name es) (lookup name m)
unfolding insert_all
lookup-insert_all name [] m = refl
lookup-insert_all name ((n, c) ∷ es) m =
    ground (arith, lookup-insert_all name es (insert n c m), lookup-insert n name c m)

-- For either format: the file that lists any entries, each of which the format can express on a
-- line of less than 65536 bytes, is parsed without an error, and the map gives for every name the
-- checksum of its last entry, and nothing for a name that has none.
pub parse-render_file :
    (format : ChecksumFormat) (es : Entries)
    → All (IsFileEntry format) es
    → (m : Map Text) × (parse (render_file format es) format ≡ ok m)
      × ((name : Text) → lookup name m ≡ last_checksum name es)
unfolding parse lookup
parse-render_file format es h = (
  insert_all empty es,
  parsed,
  λ name. lookup-insert_all name es empty ∙ or_none (last_checksum name es),
)
  where
    parsed : parse (render_file format es) format ≡ ok (insert_all empty es)
    parsed =
        rw (scan_lines-unlines (rendered format es) (rendered-IsLine format es h), parse)
          (ap ok (add_lines-rendered format es empty h))

    or_none : (o : Option Text) → or_lookup o none ≡ o
    or_none (some c) = refl
    or_none none = refl
