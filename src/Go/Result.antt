-- ===== src/Go/Result.antt =====
-- Go's ways for a call to end: a value, an error value, or a panic.
use containerdisks.Base.{◌≡◌, refl, ℕ, ◌++◌, Text, codes, Bool, true, false, Option, none, some}

-- The code of a registry's error: the number it is registered under, and its `Error()` text.
pub record ErrorCode : Type 0 where
  pub value : ℕ
  pub text : Text

-- `plain` is made by errors.New, or by fmt.Errorf with no %w. `wrapped p e` prints `p` before the
-- message of `e`, and unwraps to `e`. `coded` implements errcode.ErrorCoder. `canceled` is the
-- sentinel context.Canceled.
pub data Error : Type 0 where
  plain : Text → Error
  wrapped : Text → Error → Error
  coded : ErrorCode → Text → Error
  canceled : Error

-- The method Error.
unfoldable pub message : Error → Text
message (plain m) = m
message (wrapped p e) = p ++ message e
message (coded c m) = m
message canceled = codes "context canceled"

-- errors.Unwrap
unfoldable pub unwrap : Error → Option Error
unwrap (wrapped p e) = some e
unwrap _ = none

-- errors.Is(e, context.Canceled)
unfoldable pub is_canceled : Error → Bool
is_canceled canceled = true
is_canceled (wrapped p e) = is_canceled e
is_canceled _ = false

pub data Result {ℓ} (A : Type ℓ) : Type ℓ where
  ok : A → Result A
  err : Error → Result A
  panic : Text → Result A

infixl 5 ◌>>=◌ ◌>>◌
abbrev pub ◌>>=◌ {ℓ κ} : {A : Type ℓ} {B : Type κ} → Result A → (A → Result B) → Result B
ok a >>= f = f a
err e >>= f = err e
panic m >>= f = panic m

abbrev pub ◌>>◌ {ℓ κ} : {A : Type ℓ} {B : Type κ} → Result A → Result B → Result B
m >> k = m >>= λ _. k

-- `fmt.Errorf("…: %v", err)`: the message goes in, and the chain of causes ends.
abbrev pub errorf {ℓ} : {A : Type ℓ} → Text → Result A → Result A
errorf p (ok a) = ok a
errorf p (err e) = err (plain (p ++ message e))
errorf p (panic m) = panic m

-- If a chain succeeds, its first part gave the value with which the rest succeeds.
module _ {A B : Type 0} (next : A → Result B) where
  pub bind-eq-ok :
      {b : B} (first : Result A)
      → (first >>= next) ≡ ok b
      → (a : A) × (next a ≡ ok b) × (first ≡ ok a)
  bind-eq-ok (panic m) h = absurd (cc h)
  bind-eq-ok (err e) h = absurd (cc h)
  bind-eq-ok (ok a) h = (a, h, refl)
