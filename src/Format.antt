-- ===== src/Format.antt =====
-- The bytes of a .uso file: what the tools write, and what they read back.
pub mod Fields
pub mod Stored
pub mod Reading
pub mod Table
pub mod Sections
pub mod Header
pub mod Placed
pub mod Headed
pub mod Whole
pub mod LoadInfo
pub mod Link
pub mod Memory
pub mod Global
pub mod Moved
pub mod Relocs
pub mod Noload
pub mod Ordered
pub mod Boot
pub mod Exported
pub mod Opened
pub mod Console
pub mod RoundTrip
mod Examples
mod Samples
mod NoloadSample
mod OpenedSample
mod ConsoleSample
