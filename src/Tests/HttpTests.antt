-- ===== src/Tests/HttpTests.antt =====
-- pkg/http/http.go on a network that answers at once.
use containerdisks.Base.{◌≡◌, refl, none, [], ◌∷◌, ◌++◌, append_assoc, Text, codes, sym}
use containerdisks.Go.Result.{ok}
use containerdisks.Go.Encoding.{hex_encode}
use containerdisks.Http.{
  Net, ReadCloserWithChecksum, new_read_closer_with_checksum, read, tee, checksum,
}
use containerdisks.Http.Checksum.{Reads, start, next, reads-checksum}

-- The hash is what was written to it.
abbrev net : Net
net = record {
  World = Unit {0};
  Body = Unit {0};
  Hash = Text;
  new_request = λ file_url. ok tt;
  send = λ file_url w. (ok (record { status_code = 404; body = tt }), w);
  read_all = λ body w. (ok (codes "data"), w);
  read = λ body size w. ((codes "ab", none), w);
  close = λ body w. (ok tt, w);
  write = λ p h. h ++ p;
  sum = λ h. h;
}

abbrev url : Text
url = codes "https://e/x.img"

abbrev reader : Text → ReadCloserWithChecksum net
reader hash = new_read_closer_with_checksum net tt hash

two_reads : Reads net (reader []) (codes "abab") (reader (codes "abab"))
unfolding read tee
two_reads = next 2 tt (next 2 tt start)

nothing : (h : Text) → (h ++ []) ≡ h
nothing [] = refl
nothing (c ∷ h) = cc (nothing h)

reads-checksum_example : checksum net (reader (codes "abab")) ≡ hex_encode (codes "abab")
reads-checksum_example =
    reads-checksum net (λ a b h. sym (append_assoc h a b)) nothing tt [] (codes "abab")
      (reader (codes "abab")) two_reads
