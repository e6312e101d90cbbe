-- ===== src/Architecture.antt =====
-- pkg/architecture/arch.go
use containerdisks.Base.{◌++◌, Text, codes, ◌==◌, text_eq, text_beq, if◌then◌else◌}
use containerdisks.Go.Result.{Result, ok, panic}

-- The image architecture of a machine architecture; any other name ends the program.
unfoldable pub get_image_architecture : Text → Result Text
unfolding text_beq
get_image_architecture arch =
    if arch == codes "x86_64"
    then ok (codes "amd64")
    else if arch == codes "aarch64"
    then ok (codes "arm64")
    else if arch == codes "s390x"
    then ok (codes "s390x")
    else panic (codes "can't map unknown architecture " ++ arch ++ codes " to image architecture")
