-- ===== src/Http/Bodies.antt =====
-- Which bodies a download closes, and when it succeeds.
use containerdisks.Base.{ℕ, ◌≤◌, ◌≡◌, List, [], ◌∷◌, Text, ◌⊎◌}
use containerdisks.Go.Result.{Result, ok}
use containerdisks.Effects.Leaves.{IsStop}
use containerdisks.Http.{
  Net, Event, opened, closed, ReadCloserWithChecksum, new_read_closer_with_checksum,
}

module _ (N : Net) where
  open N use {World, Body, Hash}

  -- How a request ended: with no response, or with one that the network gave.
  pub record Answer (file_url : Text) (body : Body) (status_code : ℕ) : Type 0 where
    pub before : World
    pub given : (N.send file_url before).0 ≡ ok (record { status_code = status_code; body = body })

  abbrev pub IsSuccess : ℕ → Type 0
  IsSuccess status_code = (200 ≤ status_code) × (status_code ≤ 299)

  -- The whole of an exchange: the text was read of a body with a good status.
  pub record IsRead (file_url : Text) (r : Result Text) (es : List (Event Body)) : Type 0 where
    pub body : Body
    pub status_code : ℕ
    pub answer : Answer file_url body status_code
    pub events : es ≡ opened body ∷ closed body ∷ []
    pub success :
        (text : Text)
        → r ≡ ok text
        → IsSuccess status_code × ((w : World) × ((N.read_all body w).0 ≡ ok text))

  abbrev pub NoAnswer : {A : Type 0} → Result A → List (Event Body) → Type 0
  NoAnswer r es = (es ≡ []) × IsStop r

  -- A body that is handed on has a good status and stays open; any other one is closed.
  pub record IsHanded (file_url : Text) (hash : Hash) (r : Result (ReadCloserWithChecksum N))
      (es : List (Event Body)) : Type 0 where
    pub body : Body
    pub status_code : ℕ
    pub answer : Answer file_url body status_code
    pub cases :
        (IsSuccess status_code
          × (r ≡ ok (new_read_closer_with_checksum N body hash))
          × (es ≡ opened body ∷ []))
        ⊎ (¬ IsSuccess status_code × IsStop r × (es ≡ opened body ∷ closed body ∷ []))
