-- ===== src/Go/Sort/Laws.antt =====
-- A sort by a strict total order gives one list for all permutations of its input.
use mathlib.Core.List.{Perm, Permᴰ}
use mathlib.Core.Logic.{∥∥₁_elim}
use mathlib.Core.List.{is_set}
use containerdisks.Base.{Text, text_ltb, ◌≡◌, ◌∙◌, refl, Bool, true, false, List, [], ◌∷◌, arith}
use containerdisks.Go.Sort.{insert_sorted, sort}

-- What makes a "less" test a strict total order.
pub record IsStrictTotal {ℓ} {A : Type ℓ} (less : A → A → Bool) : Type ℓ where
  pub asym : (x y : A) → less x y ≡ true → less y x ≡ false
  pub trans : (x y z : A) → less x y ≡ true → less y z ≡ true → less x z ≡ true
  pub connected : (x y : A) → less x y ≡ false → less y x ≡ false → x ≡ y

module _ {ℓ} {A : Type ℓ} (less : A → A → Bool) (L : IsStrictTotal less) where
  insert_sorted_comm :
      (x y : A) (l : List A)
      → insert_sorted less x (insert_sorted less y l)
        ≡ insert_sorted less y (insert_sorted less x l)
  unfolding insert_sorted
  insert_sorted_comm x y [] = ground (arith, L.asym x y, L.asym y x, L.connected x y)
  insert_sorted_comm x y (z ∷ l) = ground (
    arith,
    insert_sorted_comm x y l,
    L.asym x y,
    L.asym y x,
    L.connected x y,
    L.trans z x y,
    L.trans z y x,
    L.trans x z y,
    L.trans y z x,
    L.asym x z,
    L.asym y z,
    L.connected x z,
    L.connected y z,
  )

  sort-permᴰ : {xs ys : List A} → Permᴰ xs ys → sort less xs ≡ sort less ys
  unfolding sort
  sort-permᴰ Permᴰ.nil = refl
  sort-permᴰ (Permᴰ.cons e p) = cc (e, sort-permᴰ p)
  sort-permᴰ (Permᴰ.swap {a} {b} {l = l} e f) = cc (e, f, insert_sorted_comm a b (sort less l))
  sort-permᴰ (Permᴰ.trans p q) = sort-permᴰ p ∙ sort-permᴰ q

  -- The order of the input does not matter.
  pub sort-perm : IsSet A → (xs ys : List A) → Perm xs ys → sort less xs ≡ sort less ys
  sort-perm A_set xs ys p = ∥∥₁_elim p (is_set A_set _ _) sort-permᴰ

asym : (s t : Text) → text_ltb s t ≡ true → text_ltb t s ≡ false
unfolding text_ltb
asym [] [] h = cc
asym [] (b ∷ t) h = refl
asym (a ∷ s) [] h = cc
asym (a ∷ s) (b ∷ t) h = ground (arith, asym s t)

trans : (s t u : Text) → text_ltb s t ≡ true → text_ltb t u ≡ true → text_ltb s u ≡ true
unfolding text_ltb
trans s [] u h k = absurd (cc h)
trans [] (b ∷ t) [] h k = cc
trans [] (b ∷ t) (c ∷ u) h k = refl
trans (a ∷ s) (b ∷ t) [] h k = cc
trans (a ∷ s) (b ∷ t) (c ∷ u) h k = ground (arith, trans s t u)

connected : (s t : Text) → text_ltb s t ≡ false → text_ltb t s ≡ false → s ≡ t
unfolding text_ltb
connected [] [] h k = refl
connected [] (b ∷ t) h k = cc
connected (a ∷ s) [] h k = cc
connected (a ∷ s) (b ∷ t) h k = ground (arith, connected s t)

-- Go's order of strings is a strict total order.
pub text_ltb-IsStrictTotal : IsStrictTotal text_ltb
text_ltb-IsStrictTotal = record { asym = asym; trans = trans; connected = connected }
