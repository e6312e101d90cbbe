-- ===== src/Registry/Laws.antt =====
-- Which entry a gatherer's groups mark as the latest, and which entries a focus keeps.
use containerdisks.Base.{
  ◌≤◌, ◌≡◌, ◌≢◌, ◌∙◌, ◌↔◌, refl, ap, Bool, true, false, ◌&&◌, List, [], ◌∷◌, ◌++◌, map,
  append_assoc, append-nil, arith, Text, codes, text_beq, text_beq_iff, All, length, select,
  find_first, Bool-cases, inl, inr, if◌then◌else◌,
}
use containerdisks.Go.Result.{ok}
use containerdisks.Go.Strings.{split}
use containerdisks.Go.Strings.Split.{Lacks}
use containerdisks.Go.Bufio.Lines.{split-Lacks, split-Lacks_self}
use containerdisks.Api.{Metadata, describe}
use containerdisks.Registry.{Entry, add_groups, should_skip, wildcard_name, skip_by}

module _ {A : Type 0} (metadata : A → Metadata) where
  -- The stability of a group is that of its first artifact.
  abbrev pub is_stable_group : List A → Bool
  is_stable_group [] = false
  is_stable_group (a ∷ as') = (metadata a).is_stable

  abbrev pub is_stable_entry : Entry A → Bool
  is_stable_entry e = is_stable_group e.artifacts

  abbrev entry_of : Bool → List A → Entry A
  entry_of first group = record {
    artifacts = group;
    use_for_docs = first && is_stable_group group;
    use_for_latest = first && is_stable_group group;
    skip_when_not_focused = false;
  }

  -- The entries that groups become.
  abbrev pub entries_of : Bool → List (List A) → List (Entry A)
  entries_of first [] = []
  entries_of first (group ∷ groups) =
      entry_of first group ∷ entries_of (if is_stable_group group then false else first) groups

  add_groups-entries :
      (first : Bool) (groups : List (List A)) (registry : List (Entry A))
      → All (λ g. g ≢ []) groups
      → add_groups metadata first groups registry ≡ ok (registry ++ entries_of first groups)
  unfolding add_groups
  add_groups-entries first [] registry h = ap ok (sym-append-nil registry)
    where
      sym-append-nil : (es : List (Entry A)) → es ≡ es ++ []
      sym-append-nil es = rw append-nil
  add_groups-entries first ([] ∷ groups) registry h = absurd (h.0 refl)
  add_groups-entries first ((a ∷ as') ∷ groups) registry h =
      add_groups-entries (if is_stable_group (a ∷ as') then false else first) groups _ h.1
      ∙ ap ok (append_assoc registry _ _)

  none_marked :
      (groups : List (List A))
      → select (λ (e : Entry A). e.use_for_latest) (entries_of false groups) ≡ []
  unfolding select
  none_marked [] = refl
  none_marked (g ∷ groups) = ground (arith, none_marked groups)

  marked-le-one :
      (groups : List (List A))
      → length (select (λ (e : Entry A). e.use_for_latest) (entries_of true groups)) ≤ 1
  unfolding select
  marked-le-one [] = omega arith
  marked-le-one (g ∷ groups) = elim (Bool-cases (is_stable_group g)) [
    | inl st ↦ rw st (rw (none_marked groups) (omega arith))
    | inr un ↦ rw un (marked-le-one groups)
  ]

  marked-first_stable :
      (groups : List (List A))
      → find_first (λ (e : Entry A). e.use_for_latest) (entries_of true groups)
        ≡ find_first is_stable_entry (entries_of true groups)
  unfolding find_first
  marked-first_stable [] = refl
  marked-first_stable (g ∷ groups) = elim (Bool-cases (is_stable_group g)) [
    | inl st ↦ rw st refl
    | inr un ↦ rw un (marked-first_stable groups)
  ]

  artifacts-entries :
      (first : Bool) (groups : List (List A))
      → map (λ (e : Entry A). e.artifacts) (entries_of first groups) ≡ groups
  artifacts-entries first [] = refl
  artifacts-entries first (g ∷ groups) =
      ap (λ gs. g ∷ gs) (artifacts-entries (if is_stable_group g then false else first) groups)

  -- The groups of a gatherer, none of them empty, are appended as one entry each, in their order.
  -- The first entry marked for the latest tag is the first stable one, if there is one, and at
  -- most one entry is marked.
  pub add_groups_latest :
      (groups : List (List A)) (registry : List (Entry A))
      → All (λ g. g ≢ []) groups
      → (es : List (Entry A)) × (add_groups metadata true groups registry ≡ ok (registry ++ es))
        × (map (λ (e : Entry A). e.artifacts) es ≡ groups)
        × (find_first (λ (e : Entry A). e.use_for_latest) es ≡ find_first is_stable_entry es)
        × (length (select (λ (e : Entry A). e.use_for_latest) es) ≤ 1)
  add_groups_latest groups registry h = (
    entries_of true groups,
    add_groups-entries true groups registry h,
    artifacts-entries true groups,
    marked-first_stable groups,
    marked-le-one groups,
  )

  module _ (a : A) (others : List A) (e : Entry A) (led : e.artifacts ≡ a ∷ others) where
    focused :
        (focus : Text)
        → focus ≢ []
        → should_skip metadata focus e
          ≡ skip_by metadata focus (metadata a) (wildcard_name metadata (split focus b':'))
    unfolding should_skip
    focused [] ne = absurd (ne refl)
    focused (c ∷ focus) ne = rw (led, should_skip) refl

    prefixed-ne-nil : (name rest : Text) → name ++ b':' ∷ rest ≢ []
    prefixed-ne-nil [] rest h = cc
    prefixed-ne-nil (c ∷ name) rest h = cc

    -- A focus `name:*` keeps exactly the entries whose first artifact has that name.
    pub should_skip_wildcard :
        (name : Text)
        → Lacks b':' name
        → (should_skip metadata (name ++ b':' ∷ b'*' ∷ []) e ≡ false) ↔ (name ≡ (metadata a).name)
    unfolding wildcard_name
    should_skip_wildcard name h =
        rw (focused _ (prefixed-ne-nil name (b'*' ∷ [])), split-Lacks name (b'*' ∷ []) b':' h)
          (unfold split text_beq in ground (arith, text_beq_iff name (metadata a).name))

    -- A focus `name:version`, where the version is not an asterisk, keeps exactly the entries whose
    -- first artifact is described so.
    pub should_skip_exact :
        (name version : Text)
        → Lacks b':' name
        → Lacks b':' version
        → version ≢ codes "*"
        → (should_skip metadata (name ++ b':' ∷ version) e ≡ false)
          ↔ (name ++ b':' ∷ version ≡ describe (metadata a))
    unfolding wildcard_name
    should_skip_exact name version h k ne =
        rw
          (
            focused _ (prefixed-ne-nil name version),
            split-Lacks name version b':' h,
            split-Lacks_self version b':' k,
          )
          (ground (
            arith,
            text_beq_iff version (codes "*"),
            text_beq_iff (name ++ b':' ∷ version) (describe (metadata a)),
          ))
