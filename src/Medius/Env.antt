-- ===== src/Medius/Env.antt =====
-- What the push command calls: the artifacts, the registry, the network, the file system and the
-- context. Each call may depend on the world and changes it.
use containerdisks.Base.{ℕ, Bool, List, Text}
use containerdisks.Go.Result.{Error, Result}
use containerdisks.Build.{ImageLib}
use containerdisks.Repository.{ImageInfo}
use containerdisks.Api.{ArtifactDetails, ChecksumHash, Metadata}

-- The outcome of one `io.CopyN` that is not the end of the stream: a whole chunk, or an error.
pub data Chunk : Type 0 where
  full : Chunk
  broken : Error → Chunk

-- The interface api.Artifact as far as the push command uses it, repository.Repository, http.Getter
-- with the reader that it returns, the decompressing readers, and files. `canceled` tells if the
-- context is canceled at the time of the test. `chunks` is what the copies of a stream give before
-- its end: a body is finite. `checksum` is the digest of what was read of a reader.
pub record Env : Type 1 where
  pub World : Type 0
  pub Artifact : Type 0
  pub Reader : Type 0
  pub Stream : Type 0
  pub images : ImageLib
  pub metadata : Artifact → Metadata
  pub inspect : Artifact → World → Result ArtifactDetails × World
  pub canceled : World → Result Bool × World
  pub image_metadata : Text → Text → Bool → World → Result ImageInfo × World
  pub push_image : images.Image → Text → World → Result (Unit {0}) × World
  pub push_image_index : images.Index → Text → World → Result (Unit {0}) × World
  pub get_with_checksum : Text → ChecksumHash → World → Result Reader × World
  pub plain_stream : Reader → Stream
  pub gzip_stream : Reader → World → Result Stream × World
  pub xz_stream : Reader → World → Result Stream × World
  pub create_temp : World → Result Text × World
  pub chunks : Stream → List Chunk
  pub checksum : Reader → World → Result Text × World
  pub close : Reader → World → Result (Unit {0}) × World
  pub remove : Text → World → Result (Unit {0}) × World
  pub key_order : List Text → List Text
  pub manifest_unknown : ℕ
  pub name_unknown : ℕ

-- What the command does to the outside, as far as it matters to the statements.
pub data Event : Type 0 where
  created removed pushed pushed_index requested : Text → Event
