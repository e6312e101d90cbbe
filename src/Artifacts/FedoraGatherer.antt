-- ===== src/Artifacts/FedoraGatherer.antt =====
-- artifacts/fedora/fedora.go: the releases that there are. `get_all` is the getter, `unmarshal` is
-- json.Unmarshal at the type Releases, and `key_order` is the order in which a `range` visits the
-- keys of a map.
pub mod Order
use containerdisks.Base.{
  ℕ, Bool, true, false, not, ◌&&◌, Option, none, some, List, [], ◌∷◌, ◌++◌, map, Text, codes, leb,
  text_ltb, text_beq, ◌==◌, text_eq, if◌then◌else◌,
}
use containerdisks.Go.Result.{Result, ok, panic, errorf, ◌>>=◌}
use containerdisks.Go.Strings.{fields, has_suffix}
use containerdisks.Go.Maps.{Map, empty, lookup, insert, keys}
use containerdisks.Go.Sort.{sort}
use containerdisks.Go.Strconv.{ℤ, pos, negsuc, atoi}
use containerdisks.Artifacts.Fedora.{
  Fedora, Release, amd64_arch, arm64_arch, s390x_arch, is_stable_version,
}
use containerdisks.Artifacts.Fedora

pub record FedoraGatherer : Type 0 where
  pub archs : List Text
  pub variant : Text
  pub subvariant : Text

abbrev pub minimum_version : ℕ
minimum_version = 38

unfoldable pub new_gatherer : FedoraGatherer
new_gatherer = record {
  archs = amd64_arch ∷ arm64_arch ∷ s390x_arch ∷ [];
  variant = codes "Cloud";
  subvariant = codes "Cloud_Base";
}

unfoldable pub get_releases :
    (Text → Result Text) → (Text → Result (List Release)) → Result (List Release)
get_releases get_all unmarshal = do
  raw ←
      errorf (codes "error downloading the fedora releases.json file: ")
        (get_all (codes "https://getfedora.org/releases.json"))
  errorf (codes "error parsing the releases.json file: ") (unmarshal raw)

-- The first field of the version as a number; with no field the index is out of range.
unfoldable pub version_number : Text → Result (Option ℤ)
unfolding fields atoi
version_number version = elim (fields version) [
  | [] ↦ panic (codes "index out of range [0] with length 0")
  | f ∷ fs ↦ ok (atoi f)
]

abbrev pub at_least_minimum : ℤ → Bool
at_least_minimum (pos n) = leb minimum_version n
at_least_minimum (negsuc n) = false

-- The loop over the architectures: the first one that is the release's decides.
unfoldable pub arch_matches : FedoraGatherer → Release → ℤ → List Text → Bool
unfolding text_beq has_suffix
arch_matches f release version [] = false
arch_matches f release version (arch ∷ archs) =
    let later = arch_matches f release version archs in
    if release.arch == arch
    then (if arch == s390x_arch && release.version == codes "40"
        then false
        else (at_least_minimum version
            && release.variant == f.variant
            && release.subvariant == f.subvariant
            && has_suffix release.link (codes "qcow2")))
    else later

-- A version with no number does not match.
abbrev with_version : FedoraGatherer → Release → Option ℤ → Bool
with_version f release none = false
with_version f release (some version) = arch_matches f release version f.archs

unfoldable pub gatherer_release_matches : FedoraGatherer → Release → Result Bool
unfolding version_number arch_matches
gatherer_release_matches f release = do
  version ← version_number release.version
  ok (with_version f release version)

abbrev or_nil : Option (List Release) → List Release
or_nil none = []
or_nil (some rs) = rs

-- `versions[release.Version] = append(versions[release.Version], release)`
unfoldable pub add_release : Map (List Release) → Release → Map (List Release)
unfolding lookup insert
add_release versions release =
    insert release.version (or_nil (lookup release.version versions) ++ release ∷ []) versions

-- The loop over the releases.
unfoldable pub group_releases :
    FedoraGatherer → Map (List Release) → List Release → Result (Map (List Release))
unfolding gatherer_release_matches add_release
group_releases f versions [] = ok versions
group_releases f versions (release ∷ releases) = do
  matched ← gatherer_release_matches f release
  group_releases f (if matched then add_release versions release else versions) releases

-- Stable versions first; among them, and among the others, the greater text first.
unfoldable pub version_less : Text → Text → Bool
unfolding is_stable_version text_ltb
version_less v w =
    if is_stable_version v && not (is_stable_version w)
    then true
    else if not (is_stable_version v) && is_stable_version w
    then false
    else text_ltb w v

unfoldable pub release_artifacts : Map (List Release) → Text → List Fedora
unfolding lookup
release_artifacts versions key =
    map (λ (release : Release). Fedora.new release.version release.arch)
      (or_nil (lookup key versions))

unfoldable pub gather :
    (Text → Result Text)
    → (Text → Result (List Release))
    → (List Text → List Text)
    → FedoraGatherer
    → Result (List (List Fedora))
unfolding get_releases group_releases sort version_less release_artifacts keys
gather get_all unmarshal key_order f = do
  releases ← errorf (codes "error getting releases: ") (get_releases get_all unmarshal)
  versions ← group_releases f empty releases
  ok (map (release_artifacts versions) (sort version_less (key_order (keys versions))))
