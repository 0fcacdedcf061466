-- ===== src/Cli.antt =====
-- src/bin/webex-headless.rs: the command line, as data. A `PathBuf` is its text.
pub mod Cursor
pub mod Numbers
pub mod Options
pub mod Auth
pub mod Rooms
pub mod Messages
pub mod Polling
pub mod Parse
pub mod Paths
pub mod Words
pub mod Read
pub mod Given
use webex_headless_messenger.Common.{ℕ, String, Bool, false, Option, none, List, []}

pub record GlobalOptions : Type 0 where
  pub access_token : Option String
  pub token_file : Option String
  pub client_id : Option String
  pub client_secret : Option String
  pub client_secret_file : Option String

pub record AuthDeviceArgs : Type 0 where
  pub client_id : Option String
  pub client_secret : Option String
  pub client_secret_file : Option String
  pub token_file : Option String
  pub access_token_file : Option String
  pub access_token_file_group_readable : Bool
  pub scopes : List String
  pub stdout_token : Bool

pub record AuthRefreshArgs : Type 0 where
  pub client_id : Option String
  pub client_secret : Option String
  pub client_secret_file : Option String
  pub token_file : Option String
  pub access_token_file : Option String
  pub access_token_file_group_readable : Bool

pub record RoomsListArgs : Type 0 where
  pub max_items : Option ℕ
  pub room_type : Option String
  pub team_id : Option String
  pub all : Bool

pub record RoomsResolveArgs : Type 0 where
  pub room_id : Option String
  pub link : Option String
  pub title : Option String

pub record MessagesListArgs : Type 0 where
  pub room_id : String
  pub parent_id : Option String
  pub max_items : Option ℕ
  pub all : Bool

pub record MessagesDirectArgs : Type 0 where
  pub person_id : Option String
  pub person_email : Option String
  pub parent_id : Option String
  pub all : Bool

pub data MessageTarget : Type 0 where
  room person_email : String → MessageTarget

pub data MessageBody : Type 0 where
  text markdown : String → MessageBody

pub record FileArgs : Type 0 where
  pub path : String
  pub media_type : Option String
  pub file_name : Option String

pub record MessagesSendArgs : Type 0 where
  pub target : MessageTarget
  pub body : MessageBody
  pub file : Option FileArgs

pub record MessagesReplyArgs : Type 0 where
  pub room_id : String
  pub parent_id : String
  pub body : MessageBody

pub record PollMessagesArgs : Type 0 where
  pub room_id : String
  pub interval_seconds : ℕ
  pub page_size : ℕ
  pub emit_existing : Bool

pub record SidecarReceiveArgs : Type 0 where
  pub bind : String
  pub path : String
  pub health_path : String
  pub token : Option String
  pub max_events : ℕ
  pub allow_unauthenticated : Bool
  pub allow_non_loopback : Bool

pub data Command : Type 0 where
  help me : Command
  auth_device : AuthDeviceArgs → Command
  auth_refresh : AuthRefreshArgs → Command
  rooms_list : RoomsListArgs → Command
  rooms_get : String → Command
  rooms_resolve : RoomsResolveArgs → Command
  messages_list : MessagesListArgs → Command
  messages_direct : MessagesDirectArgs → Command
  messages_get : String → Command
  messages_send : MessagesSendArgs → Command
  messages_reply : MessagesReplyArgs → Command
  messages_delete : String → Command
  poll_messages : PollMessagesArgs → Command
  sidecar_receive : SidecarReceiveArgs → Command

pub record Cli : Type 0 where
  pub global_options : GlobalOptions
  pub command : Command

-- `GlobalOptions::default`.
abbrev pub default_global : GlobalOptions
default_global = record {
  access_token = none;
  token_file = none;
  client_id = none;
  client_secret = none;
  client_secret_file = none;
}
