-- ===== src/Base/Lists.antt =====
-- Lists measured by native numbers, and predicates on lists by recursion.
use Prim.Native.Nat.{ℕ, suc, ◌+◌}
use mathlib.Core.Path.{◌≡◌, sym, ap, ◌∙◌}
use mathlib.Core.Logic.{∥∥₁_elim}
use mathlib.Core.Bool.{Bool, true, false, ◌&&◌, ◌||◌}
use mathlib.Core.Option.{Option, none, some}
use mathlib.Core.List.{
  List, [], ◌∷◌, ◌++◌, append_assoc, append-nil, Perm, Perm-prop, perm_middle, Permᴰ,
}
use mathlib.Core.List.Perm
use native.Mathlib.Omega.{arith}
use containerdisks.Base.Tests.{if◌then◌else◌}

module _ {ℓ} {A : Type ℓ} where
  abbrev pub length : List A → ℕ
  length [] = 0
  length (x ∷ xs) = suc (length xs)

  pub length-append : (xs ys : List A) → length (xs ++ ys) ≡ length xs + length ys
  length-append [] ys = omega arith
  length-append (x ∷ xs) ys = omega (arith, length-append xs ys)

  -- The last element, or `d` of an empty list.
  abbrev pub last_or : A → List A → A
  last_or d [] = d
  last_or d (x ∷ xs) = last_or x xs

  abbrev pub any : (A → Bool) → List A → Bool
  any p [] = false
  any p (x ∷ xs) = p x || any p xs

  abbrev pub all : (A → Bool) → List A → Bool
  all p [] = true
  all p (x ∷ xs) = p x && all p xs

  -- The elements that a test accepts, in order.
  unfoldable pub select : (A → Bool) → List A → List A
  select p [] = []
  select p (x ∷ xs) = let rest = select p xs in if p x then x ∷ rest else rest

  -- The first element that a test accepts.
  unfoldable pub find_first : (A → Bool) → List A → Option A
  find_first p [] = none
  find_first p (x ∷ xs) = let rest = find_first p xs in if p x then some x else rest

module _ {ℓ κ} {A : Type ℓ} (P : A → Type κ) where
  abbrev pub All : List A → Type κ
  All [] = Unit
  All (x ∷ xs) = P x × All xs

  pub All-append : (xs ys : List A) → All xs → All ys → All (xs ++ ys)
  All-append [] ys hx hy = hy
  All-append (x ∷ xs) ys hx hy = (hx.0, All-append xs ys hx.1 hy)

pub All-imp {ℓ κ μ} :
    {A : Type ℓ} (P : A → Type κ) (Q : A → Type μ)
    → ((a : A) → P a → Q a)
    → (xs : List A) → All P xs
    → All Q xs
All-imp P Q f [] h = tt
All-imp P Q f (x ∷ xs) h = (f x h.0, All-imp P Q f xs h.1)

-- What `f` gives for each element, one after the other.
abbrev pub concat_map {ℓ κ} : {A : Type ℓ} {B : Type κ} → (A → List B) → List A → List B
concat_map f [] = []
concat_map f (x ∷ xs) = f x ++ concat_map f xs

module _ {ℓ κ} {A : Type ℓ} {B : Type κ} (f : A → List B) where
  pub concat_map_snoc : (xs : List A) (x : A) → concat_map f (xs ++ x ∷ []) ≡ concat_map f xs ++ f x
  concat_map_snoc [] x = append-nil (f x)
  concat_map_snoc (y ∷ xs) x =
      ap (λ l. f y ++ l) (concat_map_snoc xs x) ∙ sym (append_assoc (f y) (concat_map f xs) (f x))

  perm_exchange : (xs ys zs : List B) → Perm (xs ++ (ys ++ zs)) (ys ++ (xs ++ zs))
  perm_exchange [] ys zs = Perm.refl (ys ++ zs)
  perm_exchange (x ∷ xs) ys zs =
      Perm.trans (Perm.cons x (perm_exchange xs ys zs)) (Perm.symm (perm_middle ys (xs ++ zs)))

  concat_map-permᴰ : {xs ys : List A} → Permᴰ xs ys → Perm (concat_map f xs) (concat_map f ys)
  concat_map-permᴰ Permᴰ.nil = Perm.refl []
  concat_map-permᴰ (Permᴰ.cons {a} {l₁ = xs} {l₂ = ys} e p) =
      rw (sym e) (Perm.append_left (f a) (concat_map-permᴰ p))
  concat_map-permᴰ (Permᴰ.swap {a} {b} {l = l} e g) =
      rw (sym e, sym g) (perm_exchange (f a) (f b) (concat_map f l))
  concat_map-permᴰ (Permᴰ.trans p q) = Perm.trans (concat_map-permᴰ p) (concat_map-permᴰ q)

  -- Permuted lists give permuted results.
  pub concat_map-perm : (xs ys : List A) → Perm xs ys → Perm (concat_map f xs) (concat_map f ys)
  concat_map-perm xs ys p = ∥∥₁_elim p Perm-prop concat_map-permᴰ
