-- ===== src/Artifacts/FedoraGatherer/Order.antt =====
-- The order of the versions that the gatherer gives.
use mathlib.Core.List.{Perm}
use containerdisks.Base.{codes, ◌≡◌, refl, ap, List, map, Text, arith}
use containerdisks.Go.Result.{Result, ok, err, panic, errorf, ◌>>=◌}
use containerdisks.Go.Maps.{keys, empty}
use containerdisks.Go.Sort.Laws.{IsStrictTotal, sort-perm, text_ltb-IsStrictTotal}
use containerdisks.Artifacts.Fedora.{Release}
use containerdisks.Artifacts.FedoraGatherer.{
  FedoraGatherer, version_less, gather, get_releases, group_releases, release_artifacts,
}

version_less-IsStrictTotal : IsStrictTotal version_less
unfolding version_less
version_less-IsStrictTotal = record {
  asym = λ v w. ground (arith, text_ltb-IsStrictTotal.asym w v);
  trans = λ u v w. ground (arith, text_ltb-IsStrictTotal.trans w v u);
  connected = λ v w. ground (arith, text_ltb-IsStrictTotal.connected w v);
}

bind_cong :
    {A B : Type 0} (r : Result A) (f g : A → Result B)
    → ((a : A) → f a ≡ g a)
    → (r >>= f) ≡ (r >>= g)
bind_cong (ok a) f g h = h a
bind_cong (err e) f g h = refl
bind_cong (panic m) f g h = refl

text-IsSet : IsSet Text
text-IsSet = hlevel

-- The gatherer gives the same groups in the same order, whatever the order in which the `range` over
-- the map of the versions visits its keys.
pub gather-key_order :
    (get_all : Text → Result Text) (unmarshal : Text → Result (List Release))
    (key_order other : List Text → List Text) (f : FedoraGatherer)
    → ((ks : List Text) → Perm (key_order ks) (other ks))
    → gather get_all unmarshal key_order f ≡ gather get_all unmarshal other f
unfolding gather
gather-key_order get_all unmarshal key_order other f same =
    bind_cong (errorf (codes "error getting releases: ") (get_releases get_all unmarshal)) _ _
      λ releases. bind_cong (group_releases f empty releases) _ _ λ versions.
        ap (λ ks. ok (map (release_artifacts versions) ks))
          (sort-perm version_less version_less-IsStrictTotal text-IsSet _ _ (same (keys versions)))
