-- ===== src/Lib.antt =====
-- TNT is a chat server that users reach over SSH. A session types into a line buffer, its lines
-- become messages of the one room, the room keeps the last of them for every screen, and a log
-- file keeps them across restarts; a rate limiter decides which connections come in at all.
--
-- The files, and the code that each models:
-- - Base: lists, strings of bytes, tests and signed integers, shared by all. A `char *` that
--   ends in NUL is the list of the bytes before the NUL, and a pointer into it is what is left
--   of the list. `int`, `size_t` and `time_t` are mathematical numbers, except where a counter
--   is meant to wrap (`update_seq`).
-- - Utf8: src/utf8.c, `utf8_decode` (decode), `utf8_is_valid_sequence`, `utf8_is_valid_string`,
--   the widths, the truncation and the two backspaces; Utf8/Ansi has the three functions that
--   leave out the escape sequences of a terminal. Utf8/Spec is RFC 3629, by division and
--   remainder; every other module that speaks of UTF-8 uses it.
-- - Ratelimit: src/ratelimit.c, `ratelimit_check_ip` (check_ip),
--   `ratelimit_record_auth_failure`, `ratelimit_release_ip` on the table of 256 addresses, and
--   the counter of all connections. Ratelimit/Trace reduces any run of calls for one address to
--   its entry, Ratelimit/Trace/Window bounds what the entry lets in.
-- - Room: src/chat_room.c and `message_t` of include/message.h. Room/Clients and Room/Refine
--   take the array of clients to a list, Room/History takes the array of messages to a window
--   over all that was broadcast.
-- - InputBuffer: src/input_buffer.c, one byte of the terminal after the other
--   (`tnt_input_append_stream_byte`).
-- - MessageLog: src/message_log.c, one record of the log, and the copy that `message_save` of
--   src/message.c prints. `gmtime_r`, `strftime`, `strptime` and `timegm` are parameters;
--   `RoundTrips` says what a theorem asks of them at one time stamp.
-- - LogFile: the log in src/message.c, `message_save` with its rotation, and the reading loop
--   that `message_load`, `message_search` and `message_dump_text` share. `strcasestr` is a
--   parameter, and the record `Disk` is what the C library answers to one call of
--   `message_save`; LogFile/Rotation has what the two files hold.
-- - Json: src/json_text.c, a string written into a bounded buffer (`tnt_json_append_string`)
--   and parsed from a text. Json/Field reads one string field of an object
--   (`tnt_json_get_string_field`).
-- - HistoryView: src/history_view.c, the scroll position and the first message on the screen.
--   The day of a message, from `localtime_r` and `strftime`, is a parameter.
-- - Common: src/common.c, the bounded buffer that Json writes to, the rule for user names, the
--   bounds of a terminal.
-- - Config: src/config_defaults.c and `env_int` of src/common.c, the settings and their ranges,
--   with `strtol` and `getenv` as parameters.
-- - Client: src/client.c, the outbox of a client and the writing to its channel (`client_send`,
--   `client_flush_output`); libssh and malloc are the record `Host` of what they answer.
--   Client/Write has the write loop, Client/Stream and Client/Session the order of the bytes,
--   Client/Progress an open channel, Client/Lifetime the references (`client_addref`,
--   `client_release`, `client_release_session`).
-- - CommandCatalog: src/command_catalog.c, the table of commands, `edit_distance`,
--   `command_catalog_match`, `command_catalog_suggest`, `command_catalog_complete`, each
--   against its own description in a child module.
-- - ExecCatalog: src/exec_catalog.c, the table of the exec commands and `exec_catalog_match`.
-- - Input: src/input.c. Input/Username has `read_username`, Input/Paste the bracketed paste,
--   Input/Pager `pager_apply_key`, Input/Session the state of a session, Input/InsertMode,
--   Input/NormalMode and Input/CommandMode the keys of the three modes, Input/Keys
--   `handle_key`, Input/CommandLine `command_tab_complete`, Input/Typing the rounds of
--   `input_run_session` that read a byte, with what is typed. The channel is the list of what
--   its reads answer, a byte or a time-out, and a loop over it takes the number of reads left
--   as fuel. How many bytes one `ssh_channel_read_timeout` finds is the field `available` of
--   the record `World`; what `commands_dispatch` of src/commands.c makes of a session is its
--   field `dispatch`. The other calls of other parts are listed in the order in which they are
--   made.
--
-- Utf8 serves InputBuffer, MessageLog, Json and Input; Input types through InputBuffer, scrolls
-- by HistoryView and takes its names through the rule of Common; Room has the message that
-- MessageLog and LogFile keep; Common serves Json.
--
-- Every function of the room, of the table and of the counter holds one lock from its first
-- statement to its last, so a call is a step, and an interleaving of threads is a list of
-- calls. Loops over a string take fuel, which starts with the length of the string; each round
-- takes at least one byte, and the theorems on these functions have no hypothesis on the fuel.
--
-- Not modelled: the commands of src/commands.c, memory allocation and its failure, NULL
-- arguments that no caller passes, the terminal, sockets, threads and libssh, the texts in two
-- languages, and the parts of these files that the comment of their module leaves out.
pub mod Base
pub mod Utf8
pub mod Ratelimit
pub mod Common
pub mod Json
pub mod Room
pub mod InputBuffer
pub mod MessageLog
pub mod LogFile
pub mod HistoryView
pub mod Config
pub mod Client
pub mod CommandCatalog
pub mod ExecCatalog
pub mod Input
