-- ===== src/Oci.antt =====
-- src/oci.rs: container images. `References` has what is read off an image reference, `Pull` how an
-- image is fetched and unpacked, and `Entrypoint` which program of it is run.
pub mod References
pub mod Settings
pub mod Pull
pub mod Entrypoint
