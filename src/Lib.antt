-- ===== src/Lib.antt =====
-- Webex headless messenger: its state log, its message pollers, its command line, the receiver of events
-- and the tokens.
--
-- The program reads the messages of a Webex account without a user interface. A poller per room turns the
-- server's pages, which list the newest messages first and overlap between polls, into a stream without
-- repeats. A poller of all joined rooms discovers the rooms, polls each and merges the messages. A state
-- log keeps what must survive a restart: the processed messages, the leases of the attempts to process
-- one, and the checkpoint of each room, which seeds its poller. The command-line program runs one command;
-- one of them receives events over HTTP and prints them. Tokens are asked for by a device and refreshed
-- shortly before they expire.
--
-- Checkpoint, Message: the data that both parts use, `RoomCheckpoint` of src/realtime.rs, `Message` and
--   `Room` of src/types.rs and `Page` of src/pagination.rs.
-- Common: `Error` of src/error.rs, Rust's `BTreeMap`, UTF-8, trimming and decimal numbers, and a monad
--   with state and errors in which a failed call keeps the changes that it has made.
-- State: `StateRecord`, `StateSnapshot` and `apply_record` of src/state.rs. State.Replay is the parser
--   `parse_snapshot_bytes`, which drops a torn last line, and `repair_incomplete_tail`. State.Store is
--   `JsonlStateStore`: each operation reads the file again, checks, appends one record and then changes
--   the snapshot. Its world is the file, the snapshot, the counter of attempt ids, where the next append
--   fails, if it does, and what a truncation does. The file is missing, readable or unreadable throughout a
--   step.
-- Realtime: src/realtime.rs. Realtime.Seen is `SeenMessageIds`, Realtime.Page `collect_page_messages`,
--   Realtime.Poller `MessagePoller`, and Realtime.Rooms `MultiRoomMessagePoller`, with the pruning of
--   inactive rooms in Rooms.Inactive, `refresh_rooms` in Rooms.Refresh, `poll_once` in Rooms.Batch and
--   `discover_joined_rooms` in Rooms.Discovery.
-- StateId: `encode_state_id` and `decode_state_id` of examples/account_bot.rs, and
--   BotStore its `ProcessedMessageStore`, where a value says whether the next write of the file
--   fails, before or after the new file takes the old one's place.
-- Cli: the arguments of src/bin/webex-headless.rs. Cli.Parse is `Cli::parse`; Cli.Auth, Cli.Rooms,
--   Cli.Messages and Cli.Polling are the subcommands, whose loops over options Cli.Options has once, as the
--   branches of a loop's body and the loop over them. Cli.Words writes a command as a command line, Cli.Read
--   and Cli.Given relate the two. Cli.Paths is the check of the paths of tokens and secrets.
-- Sidecar: the receiver of `sidecar receive` of the same file. Sidecar.Request is `read_request` over the
--   reads of a connection, Sidecar.Handler the answer to a request, Sidecar.Receiver the connections and the
--   loop over their events.
-- Auth: src/auth.rs. Auth.Client is the forms and requests of `OAuthClient`, Auth.Device `poll_device_token`
--   and the loop of `auth_device` of src/bin/webex-headless.rs, and Auth.Provider `RefreshingTokenProvider`,
--   as a relation of states that any number of calls reach by turns. A call is not cancelled. Where a time
--   overflows the call ends with `panicked`, an error of the model alone.
-- Scenarios: runs at concrete inputs.
--
-- Parameters stand for code outside the repository: serde_json (`Codec`, with `JsonLine` for what the log
-- relies on; the reading of an event), chrono, the clock and the process id (`Platform`), the server
-- (`WebexClient`, `RoomClient`, the answers to requests for tokens), the current directory and
-- `std::fs::canonicalize`, and the asynchronous runtime (`Runtime`: the order in which polls end, timeouts and
-- instants; for the receiver the order in which connections begin and end).
--
-- The rounds of a poll are bounded by the code itself; `truncate` has one round more than the queue has ids
-- and `prune_inactive_rooms` one round for each room, and each round takes one away. The discovery follows
-- links for as long as the server gives them, so it runs on fuel. A loop over options has as many rounds as
-- there are arguments, and each round takes one at least. The wait for a device's tokens has a round more
-- than its authorization lasts milliseconds, and each round but the last takes one at least.
--
-- Not modelled: the lock on the path of the state file, whose critical sections the operations of the
-- store are; the SQLite cache; the client of the REST interface, the authorization URL and webhooks; the
-- commands of the command line but for the receiver, the wait for a device's tokens and the check of its
-- files; the rest of the examples; the tasks that feed a channel from a poller.
pub mod Common
pub mod Checkpoint
pub mod State
pub mod Message
pub mod Realtime
pub mod StateId
pub mod BotStore
pub mod Cli
pub mod Sidecar
pub mod Auth
pub mod Scenarios
