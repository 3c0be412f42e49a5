-- ===== src/Lib.antt =====
-- ellidri: an IRC server in Rust, and a model of its logic.
--
-- The repository has the crates ellidri-unicase (ellidri-unicase/src/lib.rs: texts compared up to
-- case), ellidri-tokens (ellidri-tokens/src: the grammar of messages and modes, and the buffers that
-- replies are written to), ellidri-reader (ellidri-reader/src/lib.rs: lines out of a socket), and
-- the server itself (src/). A connection's task (src/net.rs, src/control.rs) reads a line; the state
-- (src/state/mod.rs) parses it to a message and a request, asks the client's connection state
-- machine (src/client.rs) whether the request may be issued, and calls the handler (src/state/v1.rs,
-- src/state/v3.rs), which changes clients and channels (src/channel.rs) and writes its answer to a
-- reply buffer (ellidri-tokens/src/buffers.rs).
--
-- Which file models what, with the names of the source:
--   Prelude, Prelude/*       texts, the methods of `str`, and maps, as the source uses them
--   Unicase                  ellidri-unicase/src/lib.rs: `CaseMapping` and its three instances, and
--                            `PartialEq` and `Hash` of `UniCase`
--   Mode                     ellidri-tokens/src/mode.rs: user and channel mode queries
--   Mask/Match, Mask/Set     src/util.rs: `match_mask`, `MaskSet`; Mask/Glob is the reference
--                            definition of what a mask matches, and has no counterpart in the source
--   Names                    src/data/strings.rs: masks, nicknames, channel names, keys, lists
--   Cap                      src/data/cap.rs: capability sets, their changes and their texts
--   Errors, Request          src/data/mod.rs, src/data/auth.rs, src/data/req.rs: requests read from
--                            messages, with the results' errors
--   Reader                   ellidri-reader/src/lib.rs: `read_line`, over the buffers of a socket
--   Command, Message         ellidri-tokens/src/command.rs, message.rs
--   Client, Client/Connection   src/client.rs: clients, and the connection's state machine
--   Channel, Channel/Members, Channel/Modes, Channel/Notice   src/channel.rs: members, bans,
--                            invitations, topics, mode changes; Notice is the part of
--                            `cmd_mode_channel_set` of src/state/v1.rs that writes the notice
--   State                    src/state/mod.rs: the clients, nicknames and channels, notifications
--                            and the removal of a client
--   State/Session, State/Rooms, State/Guests, State/Join, State/Entry, State/Moding, State/Talk,
--   State/Info, State/Lists, State/Who, State/Account   the handlers of src/state/v1.rs (NICK, USER,
--                            PASS, QUIT; PART, TOPIC; KICK, INVITE; `check_join`; JOIN; MODE of a
--                            channel; PRIVMSG; the server's own replies; LIST, NAMES and the
--                            other questions about channels; WHO, WHOIS; AWAY, OPER, KILL, MODE of a
--                            user) and of src/state/v3.rs (CAP and SETNAME, in State/Account)
--   State/Dispatch           `handle_message` of src/state/mod.rs, from a message to the handler
--   State/Server             the state as the tasks drive it: its creation, the reload of the
--                            configuration (src/config.rs), connections that come and go, and the
--                            relation of the steps that a server takes; a message whose handler panics
--                            is no step, so what it has changed by then is not covered
--   Buffers                  ellidri-tokens/src/buffers.rs: `ReplyBuffer`, `MessageBuffer`, tags
-- The modules Laws, Match/Search, Match/Decides, Match/Panics, Connection/Registration, Modes/Rights,
-- Modes/Defaults, Message/Tags, State/Owners, State/Members, State/Parting, State/Rights, Dispatch/Cost
-- and Served with its children hold the theorems, Tests the test runs. Served is the invariant of the
-- state and the changes that keep it; its children take the handlers one by one, Lift carries what the
-- handlers bring about to `handle_message`, and Reach to every run of a server.
--
-- Conventions. A text is its list of code points, and `len` counts the bytes of its UTF-8 form, as
-- Rust does. A slice of a text by byte positions gives `none` where Rust panics: off the end, or
-- inside a character. A panic of the source is a value of the model: `none`, or `panicked`. A map is
-- an association list with one entry for a key, in place of the hash maps of the source; its order
-- stands for the order in which the source iterates. Numbers are naturals; a `usize` is one that is
-- below 2 ^ 64 where it is parsed.
--
-- Bounds and fuel. Loops over texts and lists are structural recursion. `match_mask` runs on
-- fuel, one round for each character of the mask and one more, which is enough since each round cuts
-- at least one character off the mask; and the digits of a number `n` are at most `n + 1`.
-- `params_length` is the 15 of the source.
--
-- Not modelled: sockets, TLS, signals, the reading of the configuration file and the database
-- (src/net.rs, src/control.rs, src/config.rs but the record of the state's options, src/db.rs,
-- src/main.rs), which only call libraries of the operating system and of the runtime; the future around
-- `read_line`, with its test for UTF-8; and the constants of the numeric replies
-- (ellidri-tokens/src/rpl.rs, src/lines.rs), which stand as texts where they are written. The handlers
-- of AUTHENTICATE and of a message to everyone are `todo!` in the source, which is a panic. A clock, the
-- random names of batches and messages, and the free identifier that the slab gives a connection are
-- arguments.
pub mod Prelude
pub mod Unicase
pub mod Mode
pub mod Mask
pub mod Errors
pub mod Names
pub mod Cap
pub mod Command
pub mod Message
pub mod Request
pub mod Reader
pub mod Client
pub mod Channel
pub mod Buffers
pub mod State
mod Tests
