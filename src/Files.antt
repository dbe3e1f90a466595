-- ===== src/Files.antt =====
-- Files and folders of a namespace: app/app/files and its database tables.
pub mod Model
pub mod Repository
pub mod Writes
pub mod Namespaces
pub mod Effects
pub mod Core
pub mod Move
pub mod FileService
pub mod NamespaceService
pub mod NamespaceUseCase
pub mod Batch
pub mod Atomicity
