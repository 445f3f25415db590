-- ===== src/Convertor.antt =====
-- cmd/convertor/builder: the image convertor.
pub mod Pipeline
pub mod Registry
pub mod Engine
pub mod Overlaybd
pub mod TurboOci
pub mod Graph
pub mod Certificates
