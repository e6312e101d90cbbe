-- ===== src/Tests/RegistryTests.antt =====
-- cmd/medius/common/registry.go at small inputs.
use containerdisks.Base.{
  ◌≡◌, ◌≤◌, ◌↔◌, refl, Bool, true, false, List, [], ◌∷◌, ◌++◌, map, arith, Text, codes, length,
  select, find_first,
}
use containerdisks.Go.Result.{ok}
use containerdisks.Go.Maps.{empty}
use containerdisks.Api.{Metadata, describe}
use containerdisks.Registry.{Entry, add_groups, should_skip}
use containerdisks.Registry.Laws.{
  is_stable_entry, add_groups_latest, should_skip_wildcard, should_skip_exact,
}

abbrev artifact : Text → Bool → Metadata
artifact version is_stable = record {
  name = codes "fedora";
  version = version;
  description = [];
  example_user_data = record { username = []; authorized_keys = [] };
  env_variables = empty;
  arch = codes "x86_64";
  is_stable = is_stable;
}

abbrev groups : List (List Metadata)
groups =
    (artifact (codes "44-beta") false ∷ [])
    ∷ (artifact (codes "43") true ∷ artifact (codes "43") true ∷ [])
    ∷ (artifact (codes "42") true ∷ [])
    ∷ []

abbrev itself : Metadata → Metadata
itself m = m

abbrev entry : Entry Metadata
entry = record {
  artifacts = artifact (codes "43") true ∷ [];
  use_for_docs = true;
  use_for_latest = true;
  skip_when_not_focused = false;
}

add_groups_latest_example :
    (es : List (Entry Metadata)) × (add_groups itself true groups (entry ∷ [])
      ≡ ok ((entry ∷ []) ++ es))
    × (map (λ (e : Entry Metadata). e.artifacts) es ≡ groups)
    × (find_first (λ (e : Entry Metadata). e.use_for_latest) es
        ≡ find_first (is_stable_entry itself) es)
    × (length (select (λ (e : Entry Metadata). e.use_for_latest) es) ≤ 1)
add_groups_latest_example =
    add_groups_latest itself groups (entry ∷ []) ((λ h. cc), ((λ h. cc), ((λ h. cc), tt)))

should_skip_wildcard_example :
    (should_skip itself (codes "fedora" ++ b':' ∷ b'*' ∷ []) entry ≡ false)
    ↔ (codes "fedora" ≡ codes "fedora")
should_skip_wildcard_example =
    should_skip_wildcard itself (artifact (codes "43") true) [] entry refl (codes "fedora")
      (omega arith)

should_skip_exact_example :
    (should_skip itself (codes "fedora" ++ b':' ∷ codes "42") entry ≡ false)
    ↔ (codes "fedora" ++ b':' ∷ codes "42" ≡ describe (artifact (codes "43") true))
should_skip_exact_example =
    should_skip_exact itself (artifact (codes "43") true) [] entry refl (codes "fedora")
      (codes "42") (omega arith) (omega arith) (λ h. cc)
