-- ===== src/Domain.antt =====
-- src/domain/: publications, their lifecycle and evidence, the content blocks, and the public view.
pub mod Patterns
pub mod Parsed
pub mod Lifecycle
pub mod Json
pub mod Citation
pub mod Blocks
pub mod Publication
pub mod Public
