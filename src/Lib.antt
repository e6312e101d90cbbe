-- ===== src/Lib.antt =====
-- Containerdisks: the program `medius` finds the cloud images that distributions publish, builds
-- containerdisks of them, pushes them to a registry, verifies and promotes them.
--
-- Parts, and the files that model them:
--
-- * Hashsum (pkg/hashsum/hashsum.go): `Parse` of the two formats of checksum files. Hashsum/Line has
--   the lines, Hashsum/RoundTrip whole files.
-- * Architecture (pkg/architecture/arch.go), Docs (pkg/docs/docs.go), Api (pkg/api/artifact.go,
--   pkg/common/common.go, cmd/medius/common/options.go): the data that the parts exchange.
-- * Artifacts (artifacts/): one module for each implementation of the interface api.Artifact, with
--   its `Metadata`, `Inspect`, `VM`, `UserData`, `Tests` and `New`. `Artifact` is the interface as
--   one data type, with a dispatch for each method. FedoraGatherer has the gatherer of the releases.
-- * Registry (cmd/medius/common/registry.go): `gatherArtifacts` is `gather_artifacts`, with its inner
--   loop `add_groups`; `ShouldSkip` is `should_skip`; Registry/Static lists the static entries.
-- * Repository (pkg/repository/repository.go): the classification of a registry's errors, and in
--   Repository/Images the calls of the image libraries, over the record `Libraries`.
-- * Build (pkg/build/build.go): an image and an index of images, over the record `ImageLib`. Build/Tar
--   (pkg/build/tar.go) has the archive of a layer, and as a step relation the goroutine that writes it
--   together with the function that waits for it. What writes into the pipe waits for its reader.
-- * Medius (cmd/medius/): the push of an entry. Medius/Push models the methods of
--   `buildAndPublish`, one definition for each method and each loop; `Do` is `run_entry`.
--   Medius/Workers models `spawnWorkers` as a step relation: the state counts the workers, since they
--   differ in nothing, and holds the channels. The sends of a run's result and error are one step.
--   Medius/Promote models the function that the workers of the promote command run, `promote_entry`,
--   over the record `Registries`.
--   Medius/Verify models the function of the verify command's workers, `verify_entry`, down to the
--   machine and its tests, over the record `Cluster`; Medius/Verify/Target chooses the artifact.
--   Medius/Results has the results file and what the commands push, verify and promote do around the
--   pool; Medius/Push/Job is the function of the push command's workers. Medius/Workers/Sequential
--   compares the pool to a loop, Medius/Results/Pipeline the commands to steps between stages.
--   Medius/Docs models cmd/medius/docs/docs.go: Medius/Docs/Publish is `run`, on top of Quay,
--   Medius/Docs/Description is `createDescription`. An inspection of an artifact is an event of the run.
-- * Http (pkg/http/http.go): the getter over the record `Net`, and its reader with a checksum.
-- * Quay (pkg/quay/quay.go): the requests that update a repository of quay.io, over a record `Net` too.
-- * Guests (pkg/tests/): the tests `SSH` and `GuestOsInfo`, and `retryTest`, over the record `Kubevirt`.
--
-- How it is modelled:
--
-- * A text is the list of its bytes. An error is a value of `Error` (Go/Result), a panic is a result of
--   its own, so that a function of the program gives a value, an error or a panic.
-- * A map is an association list in which each key stands once (Go/Maps). The order in which a
--   `range` visits its keys is a parameter, `key_order`.
-- * What has an effect is an action (Effects): from a world to a result, the events in their order, and
--   the world behind them. `finally` is a deferred call, `on_error` the handling of an error. Effects/Emits, Success and
--   Leaves have the rules that proofs about actions share.
-- * The environment of the command is the record Medius/Env.Env: the artifacts, the registry, the
--   getter, the files and the context, each call a function of the world that may fail.
-- * Loops are structural recursion over the list that the program ranges over; the retries of a
--   download are recursion on the number of rounds left, which is three as in the source. No definition
--   has fuel that could run out. The chunks of a stream are a list, since a body is finite.
-- * The modules under Go stand for the standard library (strings, regexp, bufio, sort, path, strconv,
--   time, base64), as far as the program calls it. bufio's limit of 65536 bytes is kept.
--
-- Not modelled: the libraries that go.mod names (images, registries, Kubernetes, compression,
-- command line), which are parameters, as net/http is; logging; flags.
pub mod Base
pub mod Go
pub mod Hashsum
pub mod Architecture
pub mod Docs
pub mod Api
pub mod Artifacts
pub mod Registry
pub mod Repository
pub mod Effects
pub mod Build
pub mod Http
pub mod Quay
pub mod Guests
pub mod Medius
mod Tests
