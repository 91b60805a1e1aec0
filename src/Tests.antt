-- ===== src/Tests.antt =====
-- Concrete inputs for the theorems, one module for each part of the program.
pub mod Naming
pub mod Wire
pub mod Certs
pub mod Serving
pub mod Supervising
pub mod Handling
pub mod Storing
pub mod Linking
pub mod Guarding
pub mod Exporting
pub mod Restoring
