-- ===== src/Go/Time.antt =====
-- The part of time.Time that the program prints.
use containerdisks.Base.{ℕ, ◌+◌, ◌/◌, ◌%◌, [], ◌∷◌, ◌++◌, Text}

pub record Time : Type 0 where
  pub year : ℕ
  pub month : ℕ
  pub day : ℕ
  pub hour : ℕ
  pub minute : ℕ

unfoldable pub two_digits : ℕ → Text
two_digits n = (b'0' + n / 10 % 10) ∷ (b'0' + n % 10) ∷ []

-- `Format("0601021504")`
unfoldable pub format_stamp : Time → Text
unfolding two_digits
format_stamp t =
    two_digits t.year
    ++ (two_digits t.month ++ (two_digits t.day ++ (two_digits t.hour ++ two_digits t.minute)))
