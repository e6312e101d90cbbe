-- ===== src/Tests.antt =====
-- Runs of the definitions, and the theorems at concrete inputs.
mod HashsumTests
mod RegistryTests
mod PushTests
mod WorkersTests
mod PromoteTests
mod FedoraTests
mod DocsTests
mod VerifyTests
mod PipelineTests
mod GuestsTests
mod HttpTests
mod QuayTests
mod RepositoryTests
mod TarTests
mod PublishTests
