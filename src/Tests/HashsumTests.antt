-- ===== src/Tests/HashsumTests.antt =====
-- pkg/hashsum/hashsum.go at small files.
use containerdisks.Base.{◌≡◌, refl, List, [], ◌∷◌, arith, Text, codes}
use containerdisks.Go.Result.{ok}
use containerdisks.Go.Maps.{lookup, insert}
use containerdisks.Go.Strings.{is_space}
use containerdisks.Hashsum.{gnu, bsd, parse, drop_star}
use containerdisks.Hashsum.Line.{IsEntry, render_line}
use containerdisks.Hashsum.RoundTrip.{Entries, render_file, last_checksum, parse-render_file}

gnu_file :
    parse (codes "ab01  *x.img\n\nnot a line here\r\n9f y.img\r\nab02 x.img") gnu
    ≡ ok ((codes "x.img", codes "ab02") ∷ (codes "y.img", codes "9f") ∷ [])
unfolding parse insert is_space
gnu_file = refl

bsd_file :
    parse (codes "# c\nSHA256 (a.qcow2) = 0af\nSHA256 (b) = Z\n") bsd
    ≡ ok ((codes "a.qcow2", codes "0af") ∷ [])
unfolding parse insert is_space
bsd_file = refl

abbrev listing : Entries
listing = (codes "a.img", codes "0af1") ∷ (codes "b.img", codes "99") ∷ []

a_fits : IsEntry gnu (codes "a.img") (codes "0af1")
unfolding is_space drop_star
a_fits = record {
  name_given = cc;
  checksum_given = cc;
  name_fits = (ground arith, refl);
  checksum_fits = ground arith;
}

b_fits : IsEntry gnu (codes "b.img") (codes "99")
unfolding is_space drop_star
b_fits = record {
  name_given = cc;
  checksum_given = cc;
  name_fits = (ground arith, refl);
  checksum_fits = ground arith;
}

parse-render_file_example :
    (m : List (Text × Text)) × (parse (render_file gnu listing) gnu ≡ ok m)
    × ((name : Text) → lookup name m ≡ last_checksum name listing)
unfolding render_line
parse-render_file_example = parse-render_file gnu listing (
  record { entry = a_fits; one_line = omega arith; fits = omega arith },
  (record { entry = b_fits; one_line = omega arith; fits = omega arith }, tt),
)
