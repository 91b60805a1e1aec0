-- ===== src/Proxy.antt =====
-- src/proxy.rs: the reverse proxy. `Routes` has the route table, `Manager` the listeners and the
-- routes that the daemon adds and removes, `Filter` what happens to a request, `Caching` to its
-- response, and `Spa` the static files.
pub mod Routes
pub mod Http
pub mod Spa
pub mod Filter
pub mod Caching
pub mod Manager
