-- ===== src/Emf.antt =====
-- The EMF format of metrique-writer-format-emf/src: the output of buf.rs, and the metrics and the
-- validations of emf.rs.
pub mod Array
pub mod Buf
pub mod Elements
pub mod Metric
pub mod Entry
pub mod Fields
pub mod Line
pub mod Listed
pub mod Output
pub mod Put
pub mod Values
pub mod Vectored
mod Tests
