-- ===== src/Manifest.antt =====
-- The sections of an image's manifest, one module for each parser of limnifs-core/src.
pub mod Header
pub mod FeatureFlags
pub mod Locator
pub mod SlabIndex
pub mod History
pub mod EcParams
pub mod DeltaLinkage
pub mod DmsPolicy
pub mod MetadataReference
