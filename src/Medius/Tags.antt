-- ===== src/Medius/Tags.antt =====
-- cmd/medius/images/push.go: the tags of a containerdisk.
pub mod Joined
use containerdisks.Base.{Bool, List, [], ◌∷◌, ◌++◌, Text, codes, if◌then◌else◌}
use containerdisks.Go.Path.{path_join}
use containerdisks.Go.Time.{Time, format_stamp}
use containerdisks.Api.{Metadata, describe}

-- The loop over the additional tags; an empty one is passed over.
unfoldable pub unique_names : Text → List Text → List Text
unique_names prefix [] = []
unique_names prefix ([] ∷ tags) = unique_names prefix tags
unique_names prefix ((c ∷ tag) ∷ tags) = (prefix ++ b':' ∷ c ∷ tag) ∷ unique_names prefix tags

-- `metadata` is that of the entry's first artifact, `use_for_latest` the entry's.
unfoldable pub prepare_tags : Time → Text → Metadata → Bool → List Text → List Text
unfolding unique_names path_join describe format_stamp
prepare_tags timestamp registry metadata use_for_latest additional_unique_tags =
    let image_name = path_join (registry ∷ describe metadata ∷ []) in
    let base_name = path_join (registry ∷ metadata.name ∷ []) in
    (image_name ++ b'-' ∷ format_stamp timestamp)
    ∷ (unique_names base_name additional_unique_tags
        ++ (image_name ∷ (if use_for_latest then (base_name ++ codes ":latest") ∷ [] else [])))
