-- ===== src/Go/Path/Last.antt =====
-- The last element of a joined path, when it is one that Clean leaves alone.
use mathlib.Core.List.{reverse-cons}
use containerdisks.Base.{
  ℕ, ◌≡◌, ◌≢◌, refl, sym, ap, ◌∙◌, Bool, true, false, List, [], ◌∷◌, ◌++◌, append_assoc, Text,
  codes, arith, ◌==◌, nat_eq, text_eq, text_beq, text_beq_iff, if◌then◌else◌,
}
use containerdisks.Go.Strings.{split, join, grow_head, has_prefix}
use containerdisks.Go.Strings.Split.{Lacks}
use containerdisks.Go.Bufio.Lines.{split-Lacks_self}
use containerdisks.Go.Path.{resolve, or_dot, clean, drop_empty, clean_joined, path_join}

-- An element of a path: not empty, no slash, and neither of the dots.
pub record IsElement (x : Text) : Type 0 where
  pub one : Lacks b'/' x
  pub present : x ≢ []
  pub not_dot : x ≢ codes "."
  pub not_dots : x ≢ codes ".."

grow_head_snoc :
    (c : ℕ) (ps : List Text) (x : Text)
    → ps ≢ []
    → grow_head c (ps ++ x ∷ []) ≡ grow_head c ps ++ x ∷ []
unfolding grow_head
grow_head_snoc c [] x h = absurd (h refl)
grow_head_snoc c (p ∷ ps) x h = refl

split-ne-nil : (s : Text) (sep : ℕ) → split s sep ≢ []
unfolding split grow_head
split-ne-nil [] sep h = cc h
split-ne-nil (c ∷ s) sep h = parts (c == sep) (split s sep) h
  where
    parts : (b : Bool) (ps : List Text) → (if b then [] ∷ ps else grow_head c ps) ≢ []
    parts true ps k = cc k
    parts false [] k = cc k
    parts false (p ∷ ps) k = cc k

split_snoc : (s x : Text) → Lacks b'/' x → split (s ++ b'/' ∷ x) b'/' ≡ split s b'/' ++ x ∷ []
unfolding split
split_snoc [] x h = ap (λ ps. [] ∷ ps) (split-Lacks_self x b'/' h)
split_snoc (c ∷ s) x h = grown (c == b'/') (split_snoc s x h)
  where
    grown :
        (b : Bool)
        → split (s ++ b'/' ∷ x) b'/' ≡ split s b'/' ++ x ∷ []
        → (if b then [] ∷ split (s ++ b'/' ∷ x) b'/' else grow_head c (split (s ++ b'/' ∷ x) b'/'))
          ≡ (if b then [] ∷ split s b'/' else grow_head c (split s b'/')) ++ x ∷ []
    grown true ih = ap (λ ps. [] ∷ ps) ih
    grown false ih = ap (grow_head c) ih ∙ grow_head_snoc c (split s b'/') x (split-ne-nil s b'/')

not_same : (x y : Text) → x ≢ y → (x == y) ≡ false
unfolding text_beq
not_same x y h = ground (arith, text_beq_iff x y, h)

-- What stands before the last element.
abbrev front : List Text → Text
front [] = []
front (p ∷ ps) = join (p ∷ ps) b'/' ++ b'/' ∷ []

join_snoc : (ps : List Text) (x : Text) → join (ps ++ x ∷ []) b'/' ≡ front ps ++ x
unfolding join
join_snoc [] x = refl
join_snoc (p ∷ []) x = sym (append_assoc p (b'/' ∷ []) x)
join_snoc (p ∷ q ∷ ps) x =
    let rest = b'/' ∷ join (q ∷ ps) b'/' in
    ap (λ l. p ++ b'/' ∷ l) (join_snoc (q ∷ ps) x)
    ∙ (sym (append_assoc p (rest ++ b'/' ∷ []) x)
        ∙ ap (λ l. l ++ x) (sym (append_assoc p rest (b'/' ∷ []))))

resolve_snoc :
    (rooted : Bool) (es kept : List Text) (x : Text)
    → IsElement x
    → resolve rooted kept (es ++ x ∷ []) ≡ resolve rooted kept es ++ x ∷ []
unfolding resolve
resolve_snoc rooted [] kept x h =
    rw
      (
        not_same x [] h.present,
        not_same x (codes ".") h.not_dot,
        not_same x (codes "..") h.not_dots,
      )
      (reverse-cons x kept)
resolve_snoc rooted (e ∷ es) kept x h = resolve_snoc rooted es _ x h

or_dot_behind : (p x : Text) → x ≢ [] → or_dot (p ++ x) ≡ p ++ x
or_dot_behind [] [] h = absurd (h refl)
or_dot_behind [] (c ∷ x) h = refl
or_dot_behind (c ∷ p) x h = refl

-- What the directory contributes: it does not depend on the last element.
abbrev cleaned : Bool → Text → Text
cleaned true out = b'/' ∷ out
cleaned false out = out

unfoldable pub directory : Text → Text
unfolding has_prefix resolve split join
directory [] = []
directory (c ∷ dir) =
    cleaned (has_prefix (c ∷ dir) (b'/' ∷ []))
      (front (resolve (has_prefix (c ∷ dir) (b'/' ∷ [])) [] (split (c ∷ dir) b'/')))

out_snoc :
    (rooted : Bool) (es : List Text) (x : Text)
    → IsElement x
    → (if rooted
        then b'/' ∷ join (resolve rooted [] (es ++ x ∷ [])) b'/'
        else or_dot (join (resolve rooted [] (es ++ x ∷ [])) b'/'))
      ≡ cleaned rooted (front (resolve rooted [] es)) ++ x
out_snoc true es x h =
    ap (λ ps. b'/' ∷ join ps b'/') (resolve_snoc true es [] x h)
    ∙ ap (λ t. b'/' ∷ t) (join_snoc (resolve true [] es) x)
out_snoc false es x h =
    ap (λ ps. or_dot (join ps b'/')) (resolve_snoc false es [] x h)
    ∙ (ap or_dot (join_snoc (resolve false [] es) x)
        ∙ or_dot_behind (front (resolve false [] es)) x h.present)

abbrev output : Bool → List Text → Text
output rooted es =
    if rooted
    then b'/' ∷ join (resolve rooted [] es) b'/'
    else or_dot (join (resolve rooted [] es) b'/')

clean_by :
    (y : Text) (rooted : Bool) (es : List Text) (x : Text)
    → has_prefix y (b'/' ∷ []) ≡ rooted
    → split y b'/' ≡ es ++ x ∷ []
    → IsElement x
    → clean y ≡ cleaned rooted (front (resolve rooted [] es)) ++ x
unfolding clean
clean_by y rooted es x hp hs h =
    ap (λ b. output b (split y b'/')) hp ∙ (ap (output rooted) hs ∙ out_snoc rooted es x h)

clean_last :
    (c : ℕ) (dir x : Text) → IsElement x → clean (c ∷ (dir ++ b'/' ∷ x)) ≡ directory (c ∷ dir) ++ x
unfolding directory has_prefix
clean_last c dir x h =
    clean_by (c ∷ (dir ++ b'/' ∷ x)) (has_prefix (c ∷ dir) (b'/' ∷ [])) (split (c ∷ dir) b'/') x
      refl (split_snoc (c ∷ dir) x h.one) h

not_rooted : (x : Text) → Lacks b'/' x → has_prefix x (b'/' ∷ []) ≡ false
unfolding has_prefix
not_rooted [] h = refl
not_rooted (c ∷ s) h = ground (arith, h.0)

clean_self : (x : Text) → IsElement x → clean x ≡ x
unfolding resolve
clean_self x h = clean_by x false [] x (not_rooted x h.one) (split-Lacks_self x b'/' h.one) h

-- A directory, joined with an element, is a text that depends on the directory only, before the
-- element.
pub path_join-last : (dir x : Text) → IsElement x → path_join (dir ∷ x ∷ []) ≡ directory dir ++ x
unfolding path_join drop_empty clean_joined join directory
path_join-last [] [] h = absurd (h.present refl)
path_join-last [] (d ∷ x) h = clean_self (d ∷ x) h
path_join-last (c ∷ dir) x h = clean_last c dir x h
