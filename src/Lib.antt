-- ===== src/Lib.antt =====
-- A model of macdack, a DHCP server that answers only the clients of a table.
--
-- The program reads a configuration (src/config.rs), keeps a table of clients that it fetches as a
-- CSV file (src/clients.rs), and answers each DHCP request of a client in the table with a reply
-- that is computed from the request, the client and the configuration alone (src/dhcp.rs): it keeps
-- no leases.
--
-- The files:
--
-- Base and the modules under it: native numbers with Boolean tests, lists, byte buffers with the
-- panics of Rust's indexing, fallible code (`Result`: a value, an `Err` of anyhow, a panic, or fuel
-- that ran out), maps as lists of entries, and postconditions by rules (`Ensures`, `Total`).
--
-- Text and Net: what the program uses of `str`, `u8`, `u16` and `Ipv4Addr` of the standard library.
-- A `String` is the list of its UTF-8 bytes.
--
-- Tests: the theorems at concrete inputs.
--
-- Config: src/config.rs. `Config.validate` is `Config::validate`, check by check; Config.Address
-- has `prefix_mask` and `is_unicast`, Config.Route `parse_route`, Config.Names `valid_timezone` and
-- `valid_hostname`. What `EnvFilter::try_new` accepts is the parameter `valid_level`.
-- `Config::load` is I/O and `toml`, and is not modelled.
--
-- Clients: src/clients.rs. Clients.Row has `parse_client`, Clients.Table `Clients::parse`; the
-- reader of the csv crate is the parameter `read_csv`. Error texts are constructors, with the line
-- number where the code has it.
--
-- Dhcp: src/dhcp.rs. Dhcp.Options has `read_options` and `option`, Dhcp.Parse `Packet::parse`,
-- Dhcp.Stage `Packet::stage`, `route_mode` and `boot_mode_mismatch`, and Dhcp.Reply `reply`, whose
-- body is cut into Answer (whether to answer, and with which message), Body (header and options)
-- and Finish (relay option, size limit, padding, destination). The option map is a function from
-- codes to values. Dhcp.Dump has the packet log: `classless_routes` itself, the other option values
-- and relay information in Dhcp.Dump.Values, and `dhcp_packet_dump` in Dhcp.Dump.Packet, and the
-- texts with which its lines start in Dhcp.Dump.Safe.Starts; a text is a value that is returned,
-- and a panic is a result of its own. Dhcp.Handshake has the exchange of four messages as the
-- client sees it.
--
-- Runtime: src/runtime.rs. Runtime has `Shared`, Runtime.Requests the request statistics,
-- Runtime.Sync the loading of the saved table, `poll` and a round of `run_sync`, Runtime.Loop
-- `run_sync` as a whole, Runtime.Total that nothing of it panics, Runtime.Health `health` and
-- Runtime.Metrics `metrics`. The HTTP response, the outcome of reading and of writing the state
-- file, and the clock are arguments; one reading of the clock serves a whole round. Runtime.Persist
-- has `persist_blocking` on the directory of the state file, where any of its operations may fail
-- and `write_all` may be cut anywhere, with all the states of the disk on the way;
-- Runtime.Persist.PowerLoss says what a loss of power leaves, and Runtime.Persist.Restart puts the
-- operations under the polls, where the program is killed and started again, and the start may fail
-- to read the file. Runtime.Remote has the conditional headers of a request, and what an honest
-- server of HTTP promises for them, as a hypothesis.
--
-- Server: the loop of `serve` of src/dhcp.rs, one datagram at a time, on the state of Runtime.
-- Server.Loop is `serve` from its start on, over a list of what the socket brings, and
-- `receive_pktinfo`.
--
-- Main: `parse_args` of src/main.rs; Main.Signals `shutdown_or_reload`, and Main.Start `main` with
-- the set-up of the log. What `Config::load` makes of a path, and which task ends first, are
-- arguments.
--
-- Program: the tasks that `main` starts beside each other, as one sequence of datagrams, rounds of
-- the synchronizer and scrapes on the shared state (Program.History says what such a sequence has
-- read and answered).
--
-- Integers are natural numbers; where the code's arithmetic can wrap or truncate, the model has the
-- `%`. The loops of `read_options`, of `option` and over the user classes run on fuel, the number
-- of bytes that are left, of which each round takes one at least; running out is the result `stuck`
-- where the loop can fail.
--
-- The loops of the packet log run on the same kind of fuel. A file system is what a directory holds
-- under each name, with marks for what has been synced. A process that is killed loses nothing of
-- it; a loss of power may lose more: bytes that were not synced are then unknown, and a name that
-- was not synced may be what it was.
--
-- Not modelled: the sockets and the HTTP servers themselves; `polling_client` and `serve_http`,
-- which only build values of the reqwest and axum crates (whether `polling_client` succeeds is an
-- argument); the JSON text of `health`; the printing of floating-point numbers; the fields of the
-- log events of `serve`; and the texts that `main` prints.
pub mod Base
pub mod Clients
pub mod Config
pub mod Dhcp
pub mod Main
pub mod Net
pub mod Program
pub mod Runtime
pub mod Server
pub mod Tests
pub mod Text
