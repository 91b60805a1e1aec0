-- ===== src/Lib.antt =====
-- Models of nylon-run, a process manager with a reverse proxy, and what they show.
--
-- The daemon keeps two managers behind one lock. The process manager (src/process.rs) has a table
-- of the managed processes by name: it installs a program or pulls its image, mounts volumes,
-- starts the child, and restarts children that died. The proxy manager (src/proxy.rs) has a table
-- of routes, the ports that are listened on and the certificates; its servers, which are never
-- stopped, read the shared routes and the shared set of dead ports. The command line talks to the
-- daemon in frames (src/protocol.rs).
--
-- Which file models what:
--   Prelude        texts as lists of code points, results, maps as association lists, and actions: a
--                  fallible step on a state, as a function from the state to a result and a state
--   Protocol       src/protocol.rs: the messages; Protocol/Wire `write_message`, `read_message`
--   Ports          `parse_port_mapping` of src/main.rs and src/server.rs, and the print of a mapping
--   Paths          the functions of `std::path` that the program uses
--   System         the operating system, a parameter: its state and what each call does to it
--   Tls            src/tls.rs: the certificate store
--   Oci            src/oci.rs: Oci/References image references, Oci/Settings the settings file,
--                  Oci/Pull fetching and unpacking, Oci/Entrypoint the program that is run
--   Metrics        src/metrics.rs: the counters and gauges
--   State          src/state.rs: `StateStore` over a key-value database, a parameter with its laws
--   Process        src/process.rs: Process/State the data, Process/Start `start_process`,
--                  Process/Manager the methods of `ProcessManager`, with
--                  Process/Manager/Configs and Process/Manager/Supervision; Process/Logs the log
--                  files
--   Proxy          src/proxy.rs: Proxy/Routes `RouteTable`, Proxy/Manager `ProxyManager`, Proxy/Filter
--                  the filters of a request, Proxy/Caching those of a response, Proxy/Spa `serve_spa`
--   Daemon         src/server.rs: `handle_run`, `spawn_acme_issue` and the `Del` request,
--                  Daemon/Update `handle_update`, Daemon/EnvFile `parse_env_file_str`,
--                  Daemon/Requests `handle_request` and the health checker; Daemon/Startup
--                  `run_daemon` of src/daemon.rs; Daemon/Linked the agent in its daemon
--   Cloud          src/cloud.rs: Cloud/Config what the database keeps of the link, Cloud/Agent the
--                  connection and its retries
--   Client         src/client.rs `send_request_local` and src/server.rs `handle_client`
--   Manifest       `manifest_to_config` and `config_to_manifest` of src/main.rs, and configmaps
--   Backup         `create_backup` and `restore_backup` of src/main.rs
--   Sandbox        src/sandbox.rs: the rules of the child
--   Acme           src/acme.rs: `issue_cert` and a round of `renewal_loop`
--   Tests          concrete inputs
--
-- A function of the source has a definition of the same name. A method that changes its object is
-- an action: it takes the state and returns the result and the state after it, also after an
-- error. An `async` function that holds the lock is one step, and so is `handle_update`, which
-- takes the lock after it has pulled an image. Every loop is a recursion on the list or the tree it walks, so
-- there is no fuel. Machine integers are natural numbers with their bounds or their wrap-around
-- written out where the source computes with them.
--
-- Parameters stand for what is not code of the repository: the operating system (`Os`), the image
-- registry with the tar and gzip readers (`Registry`), free ports and canonical paths (`Host`),
-- openssl and the certificate files (`Pki`), serde_json (`Json`, `Codec`), SlateDB (`Db`, with
-- `IsLawful` for what its calls do where they succeed), the web socket (`Ws`), instant_acme
-- (`Issuer`), seccomp and Landlock (`Kernel`), pingora's response headers (`Headers`), the
-- static files (`Files`), shlex (its split and its join) and the zip crate (`Zip`, with
-- `IsWriter` for a writer whose calls succeed).
-- The time to live that a moka cache refuses is that of its
-- documentation. A hash map is a list of bindings, walked in its order. What happens in
-- an order that the source does not fix, such as the events of the agent's `select!`, is a list.
--
-- Not modelled: the command line of src/main.rs and src/cli.rs, the YAML text, the rest of
-- the daemon's life cycle (forking, pid files, opening the database), the client's printing, the
-- sampling of CPU and memory, histograms and log lines, and the task that writes a child's output.
-- Failing to list a directory while it is copied or backed up, setting a mode after a copy, and failing to
-- write to a client are left out as well.
pub mod Prelude
pub mod Protocol
pub mod State
pub mod Cloud
pub mod Ports
pub mod Paths
pub mod Tls
pub mod System
pub mod Oci
pub mod Metrics
pub mod Process
pub mod Proxy
pub mod Daemon
pub mod Client
pub mod Manifest
pub mod Backup
pub mod Sandbox
pub mod Acme
pub mod Tests
