-- ===== src/Tests/QuayTests.antt =====
-- pkg/quay/quay.go with a server that accepts the description only.
use containerdisks.Base.{ℕ, codes}
use containerdisks.Go.Result.{ok}
use containerdisks.Quay.{Net, QuayClient, new_quay_client, update}
use containerdisks.Quay.Calls.{IsUpdate, update-IsUpdate}

-- The world is the status of the next response.
abbrev pub net : Net
net = record {
  World = ℕ;
  Body = Unit {0};
  read_file = λ file w. (ok (codes "t0k3n\n"), w);
  marshal = λ value. ok (codes "{}");
  url_text = λ url. url.path;
  send = λ req w. (ok (record { status_code = w; body = tt }), 403);
  read_body = λ body w. (codes "no", w);
  close = λ body w. (ok tt, w);
}

abbrev client : QuayClient
client = new_quay_client (codes "token") (codes "containerdisks")

update-IsUpdate_example :
    IsUpdate net client
      (codes "fedora")
      (codes "text")
      (update net client (codes "fedora") (codes "text") 200).0
      (update net client (codes "fedora") (codes "text") 200).1
update-IsUpdate_example = update-IsUpdate net client (codes "fedora") (codes "text") 200
