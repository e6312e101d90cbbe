-- ===== src/Medius/Tags/Joined.antt =====
-- The tags in a registry are the tags with none, joined to the registry: what push names is what
-- verify and promote look for.
use containerdisks.Base.{
  ℕ, ◌+◌, ◌/◌, ◌%◌, ◌<◌, ◌≡◌, ◌≢◌, refl, sym, subst, ap, ◌∙◌, Bool, true, false, List, [], ◌∷◌,
  ◌++◌, append_assoc, map, Text, codes, arith, All, All-append, if◌then◌else◌,
}
use containerdisks.Go.Path.{path_join}
use containerdisks.Go.Path.Last.{IsElement, directory, path_join-last}
use containerdisks.Go.Strings.Split.{Lacks}
use containerdisks.Go.Time.{Time, format_stamp, two_digits}
use containerdisks.Api.{Metadata, describe}
use containerdisks.Medius.Tags.{unique_names, prepare_tags}

-- A name and a version that can stand in the name of an image.
pub record IsPlain (m : Metadata) : Type 0 where
  pub name : IsElement m.name
  pub version : Lacks b'/' m.version

-- A colon is no dot.
colon_in : (name s : Text) → All (λ x. x ≡ b'.') (name ++ b':' ∷ s) → ⊥
colon_in [] s h = omega (arith, h.0)
colon_in (c ∷ name) s h = colon_in name s h.1

colon_no_slash : ◌≢◌ {A = ℕ} b':' b'/'
colon_no_slash e = omega (arith, e)

dash_no_slash : ◌≢◌ {A = ℕ} b'-' b'/'
dash_no_slash e = omega (arith, e)

tagged-ne-nil : (name s : Text) → (name ++ b':' ∷ s) ≢ []
tagged-ne-nil [] s e = cc e
tagged-ne-nil (c ∷ name) s e = cc e

tagged-IsElement : (name s : Text) → IsElement name → Lacks b'/' s → IsElement (name ++ b':' ∷ s)
tagged-IsElement name s h k = record {
  one = All-append (λ x. x ≢ b'/') name (b':' ∷ s) h.one (colon_no_slash, k);
  present = tagged-ne-nil name s;
  not_dot = λ e. colon_in name s (subst (All (λ x. x ≡ b'.')) (sym e) (refl, tt));
  not_dots = λ e. colon_in name s (subst (All (λ x. x ≡ b'.')) (sym e) (refl, (refl, tt)));
}

digit_no_slash : (n : ℕ) → (b'0' + n) ≢ b'/'
digit_no_slash n e = omega (arith, e)

stamp-Lacks : (t : Time) → Lacks b'/' (format_stamp t)
unfolding format_stamp two_digits
stamp-Lacks t = (
  digit_no_slash (t.year / 10 % 10),
  (
    digit_no_slash (t.year % 10),
    (
      digit_no_slash (t.month / 10 % 10),
      (
        digit_no_slash (t.month % 10),
        (
          digit_no_slash (t.day / 10 % 10),
          (
            digit_no_slash (t.day % 10),
            (
              digit_no_slash (t.hour / 10 % 10),
              (
                digit_no_slash (t.hour % 10),
                (digit_no_slash (t.minute / 10 % 10), (digit_no_slash (t.minute % 10), tt)),
              ),
            ),
          ),
        ),
      ),
    ),
  ),
)

module _ (registry name : Text) (h : IsElement name) where
  -- A name with something behind a colon, joined to the registry.
  join_tagged :
      (s : Text)
      → Lacks b'/' s
      → directory registry ++ (name ++ b':' ∷ s) ≡ path_join (registry ∷ (name ++ b':' ∷ s) ∷ [])
  join_tagged s k = sym (path_join-last registry (name ++ b':' ∷ s) (tagged-IsElement name s h k))

  unique_names-join :
      (tags : List Text)
      → All (Lacks b'/') tags
      → unique_names (directory registry ++ name) tags
        ≡ map (λ tag. path_join (registry ∷ tag ∷ [])) (unique_names name tags)
  unfolding unique_names
  unique_names-join [] k = refl
  unique_names-join ([] ∷ tags) k = unique_names-join tags k.1
  unique_names-join ((c ∷ tag) ∷ tags) k = cc (
    append_assoc (directory registry) name (b':' ∷ c ∷ tag),
    join_tagged (c ∷ tag) k.0,
    unique_names-join tags k.1,
  )

map-append : (f : Text → Text) (xs ys : List Text) → map f (xs ++ ys) ≡ map f xs ++ map f ys
map-append f [] ys = refl
map-append f (x ∷ xs) ys = ap (λ l. f x ∷ l) (map-append f xs ys)

latest-Lacks : Lacks b'/' (codes "latest")
latest-Lacks = (
  no_slash 108 (omega arith),
  (
    no_slash 97 (omega arith),
    (
      no_slash 116 (omega arith),
      (no_slash 101 (omega arith), (no_slash 115 (omega arith), (no_slash 116 (omega arith), tt))),
    ),
  ),
)
  where
    no_slash : (c : ℕ) → 47 < c → c ≢ b'/'
    no_slash c h e = omega (arith, h, e)

module _ (timestamp : Time) (m : Metadata) (use_for_latest : Bool) (tags : List Text)
    (plain : IsPlain m) (clear : All (Lacks b'/') tags) where
  -- The tags of an image name and of a base name.
  abbrev tags_of : Text → Text → List Text
  tags_of image base =
      (image ++ b'-' ∷ format_stamp timestamp)
      ∷ (unique_names base tags
          ++ (image ∷ (if use_for_latest then (base ++ codes ":latest") ∷ [] else [])))

  described-IsElement : IsElement (describe m)
  unfolding describe
  described-IsElement = tagged-IsElement m.name m.version plain.name plain.version

  prepare_tags-eq :
      (registry : Text)
      → prepare_tags timestamp registry m use_for_latest tags
        ≡ tags_of (directory registry ++ describe m) (directory registry ++ m.name)
  unfolding prepare_tags
  prepare_tags-eq registry =
      ap (λ image. tags_of image (path_join (registry ∷ m.name ∷ [])))
        (path_join-last registry (describe m) described-IsElement)
      ∙ ap (tags_of (directory registry ++ describe m)) (path_join-last registry m.name plain.name)

  latest-join :
      (registry : Text) (b : Bool)
      → (if b then ((directory registry ++ m.name) ++ codes ":latest") ∷ [] else [])
        ≡ map
            (λ tag. path_join (registry ∷ tag ∷ []))
            (if b then (m.name ++ codes ":latest") ∷ [] else [])
  latest-join registry true =
      ap (λ t. t ∷ [])
        (append_assoc (directory registry) m.name (codes ":latest")
          ∙ join_tagged registry m.name plain.name (codes "latest") latest-Lacks)
  latest-join registry false = refl

  stamped-join :
      (registry : Text)
      → (directory registry ++ describe m) ++ b'-' ∷ format_stamp timestamp
        ≡ path_join (registry ∷ (describe m ++ b'-' ∷ format_stamp timestamp) ∷ [])
  unfolding describe
  stamped-join registry =
      let stamp = b'-' ∷ format_stamp timestamp in
      let same = append_assoc m.name (b':' ∷ m.version) stamp in
      append_assoc (directory registry) (m.name ++ b':' ∷ m.version) stamp
      ∙ (ap (λ t. directory registry ++ t) same
          ∙ (join_tagged registry m.name plain.name (m.version ++ stamp) (
                All-append (λ (x : ℕ). x ≢ b'/') m.version stamp plain.version
                  (dash_no_slash, stamp-Lacks timestamp))
              ∙ ap (λ t. path_join (registry ∷ t ∷ [])) (sym same)))

  tags_of-join :
      (registry : Text)
      → tags_of (directory registry ++ describe m) (directory registry ++ m.name)
        ≡ map (λ tag. path_join (registry ∷ tag ∷ [])) (tags_of (describe m) m.name)
  tags_of-join registry = cc (
    stamped-join registry,
    map-append (λ tag. path_join (registry ∷ tag ∷ [])) (unique_names m.name tags)
        (describe m ∷ (if use_for_latest then (m.name ++ codes ":latest") ∷ [] else [])),
    unique_names-join registry m.name plain.name tags clear,
    path_join-last registry (describe m) described-IsElement,
    latest-join registry use_for_latest,
  )

  -- The tags in a registry are those with none, each joined to the registry.
  pub prepare_tags-join :
      (registry : Text)
      → prepare_tags timestamp registry m use_for_latest tags
        ≡ map
            (λ tag. path_join (registry ∷ tag ∷ []))
            (prepare_tags timestamp [] m use_for_latest tags)
  unfolding directory
  prepare_tags-join registry =
      prepare_tags-eq registry
      ∙ (tags_of-join registry
          ∙ ap (map (λ tag. path_join (registry ∷ tag ∷ []))) (sym (prepare_tags-eq [])))
