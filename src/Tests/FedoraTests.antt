-- ===== src/Tests/FedoraTests.antt =====
-- artifacts/fedora/fedora.go at three releases.
use mathlib.Core.List.{Perm, Permᴰ}
use mathlib.Core.List.Permᴰ
use containerdisks.Base.{◌≡◌, refl, List, [], ◌∷◌, Text, codes}
use containerdisks.Go.Result.{Result, ok}
use containerdisks.Artifacts.Fedora.{Release}
use containerdisks.Artifacts.FedoraGatherer.{gather, new_gatherer}
use containerdisks.Artifacts.FedoraGatherer.Order.{gather-key_order}

abbrev release : Text → Release
release version = record {
  subvariant = codes "Cloud_Base";
  variant = codes "Cloud";
  version = version;
  link = codes "https://e/Fedora-Cloud-43-1.6.qcow2";
  sha256 = codes "ab";
  arch = codes "x86_64";
  size = codes "1";
}

abbrev get_all : Text → Result Text
get_all url = ok []

abbrev unmarshal : Text → Result (List Release)
unmarshal raw = ok (release (codes "42") ∷ release (codes "44 Beta") ∷ release (codes "43") ∷ [])

abbrev first_order : List Text → List Text
first_order ks = ks

-- The first two keys change places.
abbrev second_order : List Text → List Text
second_order (a ∷ b ∷ ks) = b ∷ a ∷ ks
second_order ks = ks

orders-Perm : (ks : List Text) → Perm (first_order ks) (second_order ks)
orders-Perm [] = ∣ Permᴰ.refl [] ∣₁
orders-Perm (a ∷ []) = ∣ Permᴰ.refl (a ∷ []) ∣₁
orders-Perm (a ∷ b ∷ ks) = ∣ Permᴰ.swap refl refl ∣₁

gather-key_order_example :
    gather get_all unmarshal first_order new_gatherer
    ≡ gather get_all unmarshal second_order new_gatherer
gather-key_order_example =
    gather-key_order get_all unmarshal first_order second_order new_gatherer orders-Perm
