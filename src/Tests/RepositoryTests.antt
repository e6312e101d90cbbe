-- ===== src/Tests/RepositoryTests.antt =====
-- pkg/repository/repository.go with an image that is missing and a source that cannot be closed.
use containerdisks.Base.{Text, codes}
use containerdisks.Go.Result.{ok, err, plain}
use containerdisks.Repository.Images.{Libraries}

abbrev libraries : Libraries
libraries = record {
  World = Unit {0};
  Name = Text;
  Source = Text;
  Parsed = Unit {0};
  Image = Unit {0};
  Index = Unit {0};
  Reference = Unit {0};
  parse_image_name = λ name. ok name;
  new_image_source = λ name sys w. (ok name, w);
  from_unparsed_image = λ sys src w. (ok tt, w);
  inspect = λ img w. (err (plain (codes "manifest unknown")), w);
  close = λ src w. (err (plain (codes "broken pipe")), w);
  crane_push = λ img ref w. (ok tt, w);
  parse_reference = λ ref. ok tt;
  write_index = λ ref index w. (ok tt, w);
  crane_copy = λ source target insecure w. (ok tt, w);
}
