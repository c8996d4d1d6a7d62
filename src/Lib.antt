-- ===== src/Lib.antt =====
-- A model of tepegoz, a terminal multiplexer: a daemon keeps local panes and panes over SSH, and a
-- terminal client shows them in a grid of tiles beside lists of containers, ports and hosts.
--
-- The client reads bytes from the terminal. The mouse parser (Mouse, of
-- crates/tepegoz-tui/src/mouse.rs: `parse` is `MouseParser::parse`) takes mouse reports out of
-- them; the input filter (Input, of crates/tepegoz-tui/src/input.rs: `process` is
-- `InputFilter::process`) takes the control keys out of the rest. What is forwarded goes to a
-- pane, or is parsed as keys of a list (Keys, of `ScopeKeyParser` in
-- crates/tepegoz-tui/src/app.rs). The tiles and the moves between them are in Tile, of
-- crates/tepegoz-tui/src/tile.rs.
--
-- Of the state machine in crates/tepegoz-tui/src/app.rs, App models the panes, the focus, the
-- toasts and the pending requests of `App`: App/Panes, App/Focus and App/Toasts have a function
-- for each handler, named as the method, and App/Reach has the states that they lead to. A method
-- that indexes a vector gives `none` where that panics. Docker models the tile of containers:
-- `handle_scope_key` and the transcript in Docker/Keys, the daemon's events and a new target in
-- Docker/Events. HostPicker models the modal that turns a tile to another host. Scopes models the
-- two lists of the Ports tile, Fleet the list of hosts, and Logs the log view of a container. Of
-- the daemon, Pane models the scrollback ring and the panes of crates/tepegoz-pty/src/lib.rs, the
-- driver of a pane over SSH in crates/tepegoz-core/src/remote_pane.rs, both pane tables, and what
-- `forward_pane` and `forward_remote_pane` of crates/tepegoz-core/src/client.rs send of a pane.
--
-- On the socket between them, crates/tepegoz-proto/src/codec.rs frames envelopes: Wire has
-- `write_envelope`, `read_envelope` and the loop that reads until an error, Wire/Session the
-- `tokio::select!` of `session` in client.rs, where a tick of the status timer drops a read that
-- is under way. Daemon is the session of a client: Daemon/Session has the maps of subscriptions
-- and `handle_command`, Daemon/Agents the pool of agents, `route_remote_subscribe` and
-- `route_remote_docker_action` of client.rs, and `route_agent_envelope`,
-- `drain_routing_on_disconnect` and the entry of an agent of crates/tepegoz-core/src/agent.rs;
-- Daemon/Fresh has the pools that these lead to.
-- Supervisor is `host_supervisor` of client.rs, which keeps one host of the fleet connected, as a
-- state machine: a phase for each place where the task waits, and `step` from a wake-up to the
-- next wait. Supervisor/Shown joins it with the fleet list of the client. Ssh is
-- crates/tepegoz-ssh: Ssh/Shell and Ssh/Deploy have the commands and the pipeline of
-- `deploy_agent` in src/deploy.rs, Ssh/KnownHosts `check` and `forget` of src/known_hosts.rs.
--
-- Prelude holds tests on numbers and lemmas on lists, Text what the sources use of Rust's standard
-- library on text, over lists of bytes, and Ratatui the geometry of the `ratatui` crate as an
-- interface with the documented behaviour of `Rect::new` and `Rect::contains`. The `vt100` crate's
-- parser and `str::to_lowercase` are arguments without hypotheses. Of
-- `tokio::sync::broadcast` Pane has the documented behaviour: a receiver keeps the last
-- `BROADCAST_CHANNEL_SIZE` updates that it has not read, in order, and reports what it has lost
-- with one `Lagged`, and no channel is closed. Wire takes the `rkyv` serializer as a record of two functions, and says where it relies on reading
-- back what was written; Ssh takes the remote host as a function from a command and its input to a
-- result and the next state of the host, and SHA-256, the process id and `str::to_lowercase` as
-- arguments without hypotheses. How the remote shell splits a command is `shell_words` of
-- Ssh/Shell, after POSIX.
--
-- Bytes are numbers, times of Supervisor milliseconds. Sums of `u16` wrap, as do the pane ids,
-- which are `u64`; subscription ids, lengths and indices are plain numbers. Loops are recursions
-- on the bytes, the rows or the chunks that they go through. There is fuel in `cycle_steps` of
-- Tile, five steps for the five tiles of the cycle; in `to_string` of Text, one more than the
-- number, which has fewer digits than that; and in `read_all` of Wire and `drain` of Wire/Session,
-- one more than the stream has bytes, each turn of which takes at least four.
--
-- Not modelled: the runtime, the terminal modes and the drawing of the client; of `App` the keys
-- of the fleet list, the help overlay, where a click lands, clicks on rows and `handle_stdin`; of the daemon the accept loop,
-- the pane commands, the contents of the status, the loops that poll Docker, ports and processes,
-- the dispatch of fleet actions, and the handshake with an agent; of SSH the connection, the start
-- of an agent and the reading of ssh_config; the agent, the Docker client, the probes and the
-- command line. What is left out is for the most part input and output.
pub mod Prelude
pub mod Text
pub mod Ratatui
pub mod Mouse
pub mod Input
pub mod Keys
pub mod Tile
pub mod App
pub mod Scopes
pub mod Fleet
pub mod Logs
pub mod Pane
pub mod Supervisor
pub mod Wire
pub mod Ssh
pub mod Daemon
pub mod Docker
pub mod HostPicker
