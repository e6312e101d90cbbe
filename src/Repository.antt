-- ===== src/Repository.antt =====
-- pkg/repository/repository.go: how the errors of a registry are told apart. The two numbers under
-- which the registry's library has its codes are parameters.
pub mod Images
use containerdisks.Base.{
  ℕ, Bool, false, ◌&&◌, Option, none, some, Text, codes, text_beq, ◌==◌, nat_eq, text_eq, List,
}
use containerdisks.Go.Result.{Error, ErrorCode, plain, wrapped, coded, canceled, message}
use containerdisks.Go.Time.{Time}
use containerdisks.Go.Strings.{contains}
use containerdisks.Go.Maps.{Map}

pub record ImageInfo : Type 0 where
  pub tag : Text
  pub created : Option Time
  pub docker_version : Text
  pub labels : Map Text
  pub architecture : Text
  pub os : Text
  pub layers : List Text
  pub env : List Text

-- The code of the error at the end of the chain of causes.
unfoldable pub get_error_code : Error → Option ErrorCode
get_error_code (wrapped p e) = get_error_code e
get_error_code (coded c m) = some c
get_error_code (plain m) = none
get_error_code canceled = none

abbrev has_value : ℕ → Option ErrorCode → Bool
has_value n none = false
has_value n (some c) = c.value == n

unfoldable pub is_manifest_unknown_error : ℕ → Error → Bool
unfolding get_error_code
is_manifest_unknown_error manifest_unknown e = has_value manifest_unknown (get_error_code e)

unfoldable pub is_repository_unknown_error : ℕ → Error → Bool
unfolding get_error_code
is_repository_unknown_error name_unknown e = has_value name_unknown (get_error_code e)

abbrev is_unknown : Option ErrorCode → Bool
is_unknown none = false
is_unknown (some c) = c.text == codes "unknown"

unfoldable pub is_tag_unknown_error : Error → Bool
unfolding get_error_code message contains text_beq
is_tag_unknown_error e =
    is_unknown (get_error_code e)
    && contains (message e) (codes "was deleted or has expired. To pull, revive via time machine")

unfoldable pub is_arch_unknown_error : Error → Bool
unfolding message contains
is_arch_unknown_error e =
    contains (message e) (codes "no image found in manifest list for architecture")
