-- ===== src/Cli/Read.antt =====
-- The command lines of `Cli.Words`, read back by the parsers of src/bin/webex-headless.rs.
mod Rooms
mod Auth
mod Messages
mod Sends
mod Polling
mod Globals
use webex_headless_messenger.Common.{
  ◌≡◌, refl, ap, ◌∙◌, List, [], ◌∷◌, ◌++◌, Result, ok, ◌>>=◌, ◌||◌, str_eq, if◌then◌else◌,
}
use webex_headless_messenger.Cli.{
  GlobalOptions, Command, help, me, auth_device, auth_refresh, rooms_list, rooms_get, rooms_resolve,
  messages_list, messages_direct, messages_get, messages_send, messages_reply, messages_delete,
  poll_messages, sidecar_receive, Cli,
}
use webex_headless_messenger.Cli.Cursor.{finish, starts_with_dash}
use webex_headless_messenger.Cli.Parse.{parse, parse_command, global_loop, with_command}
use webex_headless_messenger.Cli.Words.{words, command_words, IsGiven}
use Rooms.{parse_rooms-list, parse_rooms-get, parse_rooms-resolve}
use Auth.{parse_auth-device, parse_auth-refresh}
use Messages.{parse_messages-list, parse_messages-direct, parse_messages-get, parse_messages-delete}
use Sends.{parse_messages-send, parse_messages-reply}
use Polling.{parse_poll-messages, parse_sidecar-receive}
use Globals.{parse_from, parse_from-global_words}

-- The words of a command, after the global options.
parse_from-command_words :
    (g : GlobalOptions) (c : Command)
    → IsGiven c
    → parse_from g (command_words c) ≡ with_command g c
unfolding parse_from global_loop parse_command starts_with_dash command_words finish
parse_from-command_words g help h = refl
parse_from-command_words g me h = refl
parse_from-command_words g (auth_device a) h = rw (parse_auth-device a h) refl
parse_from-command_words g (auth_refresh a) h = rw (parse_auth-refresh a) refl
parse_from-command_words g (rooms_list a) h = rw (parse_rooms-list a h) refl
parse_from-command_words g (rooms_get id) h = rw (parse_rooms-get id) refl
parse_from-command_words g (rooms_resolve a) h = rw (parse_rooms-resolve a) refl
parse_from-command_words g (messages_list a) h = rw (parse_messages-list a h) refl
parse_from-command_words g (messages_direct a) h = rw (parse_messages-direct a h) refl
parse_from-command_words g (messages_get id) h = rw (parse_messages-get id) refl
parse_from-command_words g (messages_send a) h = rw (parse_messages-send a) refl
parse_from-command_words g (messages_reply a) h = rw (parse_messages-reply a) refl
parse_from-command_words g (messages_delete id) h = rw (parse_messages-delete id) refl
parse_from-command_words g (poll_messages a) h = rw (parse_poll-messages a h.0 h.1) refl
parse_from-command_words g (sidecar_receive a) h = rw (parse_sidecar-receive a h.0 h.1) refl

-- Every command that a command line can give (a page size below 2^16, an interval and a number of events
-- below 2^64, one person for direct messages, two different paths for the receiver, scopes that a list of
-- scopes can hold), with any global options, is read back from its words: `parse` gives the same options
-- and the same command, whatever the values are, also those that look like options.
pub parse-words : (cli : Cli) → IsGiven cli.command → parse (words cli) ≡ ok cli
unfolding parse parse_from words
parse-words cli h =
    parse_from-global_words cli.global_options (command_words cli.command)
    ∙ parse_from-command_words cli.global_options cli.command h
