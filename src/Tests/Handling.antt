-- ===== src/Tests/Handling.antt =====
-- Messages to a server with two registered clients in one channel: src/state/mod.rs.
use ellidri.Prelude.{
  get, ◌==◌, if◌then◌else◌, length, Text, text, contains_key, ℕ, ◌≤◌, ◌≡◌, refl, ◌⊎◌, Bool, true,
  false, Option, none, some, List, [], ◌∷◌, arith,
}
use ellidri.Message.{Message, param, ParsedCommand, known}
use ellidri.Command
use ellidri.Request
use ellidri.Request.{Request}
use ellidri.Unicase
use ellidri.Client.{Client, Item}
use ellidri.Client
use ellidri.Client.Connection.{is_registered, connection_established}
use ellidri.State.{State, World, same_name, client_of}
use ellidri.State.Info.{Env}
use ellidri.State.Members.{is_in}
use ellidri.State.Entry.{cmd_part_all}
use ellidri.State.Dispatch.{run_request, handle_message, Outcome}
use ellidri.State.Dispatch.Cost.{handle_message-IsCharged}
use ellidri.State.Server.{Config, new, peer_joined, Reach, start, next, connected, handled}
use ellidri.State.Served.{rechanneled, IsServed}
use ellidri.State.Served.Reach.{Reach-IsServed}
use ellidri.State.Entry.{join_one}
use ellidri.State.Served.Joining.{lets_in, IsEntered, join_one-IsEntered}
use ellidri.State.Served.Leaving.{channels_without, cmd_part_all-IsServed}
use ellidri.Buffers.{is_some}
use ellidri.State.Served.Total.{run_request_total}
use ellidri.State.Served.Privilege.{IsAllowed, handle_message-operators}
use ellidri.State.Served.Early.{IsPrivate, handle_message-IsPrivate}
use ellidri.Tests.Server.{bob, server, world, server-IsOwned, server-IsJoined}

abbrev env : Env
env = record {
  now = 7;
  time_str = text "now";
  time_precise = text "now";
  message_id = text "id";
  server_version = text "1";
  server_info = text "ellidri";
  client_tags = [];
}

server-IsServed : IsServed server
server-IsServed = record { owned = server-IsOwned; joined = server-IsJoined }

cmd_part_all-IsServed_example :
    (r : World × Bool) × (cmd_part_all 2 world ≡ some r)
    × (r.0.state ≡ rechanneled (channels_without 2 server.channels) server)
    × ((j : ℕ) → is_in j r.0.state.channels ≡ (if 2 == j then false else is_in j server.channels))
    × IsServed r.0.state
cmd_part_all-IsServed_example = cmd_part_all-IsServed 2 world bob server-IsServed refl

abbrev said : Command.Command → List Text → Message
said command params = record {
  tags = [];
  prefix = none;
  command = known command;
  num_params = length params;
  params = params;
}

abbrev nothing : Outcome
nothing = record { cost = 0; state = server; sent = [] }

abbrev the : Option Outcome → Outcome
the none = nothing
the (some o) = o

abbrev away : Option Outcome
away = handle_message env 2 (said Command.away (text "lunch" ∷ [])) server []

away_handled : away ≡ some (the away)
unfolding handle_message ellidri.State.Dispatch.handle_from Request.new Command.required_params
    ellidri.State.Dispatch.serve_request ellidri.Client.can_issue_request
    ellidri.Client.Connection.apply run_request ellidri.State.Dispatch.after_handler
    ellidri.State.send_notification ellidri.State.Session.with_client ellidri.State.Dispatch.advance
    ellidri.Client.apply_request is_registered ellidri.State.Dispatch.finish ellidri.Buffers.lr_end
    ellidri.Buffers.reply_with ellidri.Buffers.new_reply ellidri.Buffers.trailing_param
    ellidri.State.Dispatch.label_of ellidri.Message.tags ellidri.State.Account.cmd_away
    ellidri.State.Account.set_away
away_handled = refl

handle_message-IsCharged_example :
    (((the away).cost ≡ 999999) × (contains_key ◌==◌ 2 (the away).state.clients ≡ false))
    ⊎ (((1 ≤ (the away).cost) × ((the away).cost ≤ 48)) × (false ≡ true → (the away).cost ≤ 6))
handle_message-IsCharged_example =
    handle_message-IsCharged env 2 (said Command.away (text "lunch" ∷ [])) server [] bob (the away)
      refl away_handled

-- Bob guesses a password.
abbrev guess : Option Outcome
guess = handle_message env 2 (said Command.oper (text "root" ∷ text "1234" ∷ [])) server []

guess_handled : guess ≡ some (the guess)
unfolding handle_message ellidri.State.Dispatch.handle_from Request.new Command.required_params
    ellidri.State.Dispatch.serve_request ellidri.Client.can_issue_request
    ellidri.Client.Connection.apply run_request ellidri.State.Dispatch.after_handler
    ellidri.State.send_notification ellidri.State.Session.with_client ellidri.State.Dispatch.advance
    ellidri.Client.apply_request is_registered ellidri.State.Dispatch.finish ellidri.Buffers.lr_end
    ellidri.Buffers.reply_with ellidri.Buffers.new_reply ellidri.Buffers.trailing_param
    ellidri.State.Dispatch.label_of ellidri.Message.tags ellidri.State.Account.cmd_oper
guess_handled = refl

handle_message-operators_example :
    IsAllowed (said Command.oper (text "root" ∷ text "1234" ∷ [])) server (the guess).state
handle_message-operators_example =
    handle_message-operators env 2 (said Command.oper (text "root" ∷ text "1234" ∷ [])) server []
      (the guess) server-IsServed guess_handled

-- A third client has connected, and asks for a nickname.
abbrev visited : State
visited = peer_joined 0 3 (text "127.0.0.1") server

abbrev asked : Option Outcome
asked = handle_message env 3 (said Command.nick (text "carol" ∷ [])) visited []

asked_handled : asked ≡ some (the asked)
unfolding handle_message ellidri.State.Dispatch.handle_from Request.new Command.required_params
    ellidri.State.Dispatch.serve_request ellidri.Client.can_issue_request
    ellidri.Client.Connection.apply run_request ellidri.State.Dispatch.after_handler
    ellidri.State.send_notification ellidri.State.Session.with_client ellidri.State.Dispatch.advance
    ellidri.Client.apply_request is_registered ellidri.State.Dispatch.finish ellidri.Buffers.lr_end
    ellidri.Buffers.reply_with ellidri.Buffers.new_reply ellidri.Buffers.trailing_param
    ellidri.State.Dispatch.label_of ellidri.Message.tags ellidri.State.Session.cmd_nick peer_joined
    ellidri.Names.nickname_try_from Client.new Unicase.unicase_eq Unicase.ascii
asked_handled = refl

handle_message-IsPrivate_example : IsPrivate 3 visited (the asked).state
unfolding peer_joined is_registered Client.new
handle_message-IsPrivate_example =
    handle_message-IsPrivate env 3 (said Command.nick (text "carol" ∷ [])) visited []
      (Client.new (text "ellidri.localdomain") (text "127.0.0.1") 0) (the asked) refl refl
      asked_handled

-- A server from its start: a client connects, asks for a nickname, and is gone.
abbrev config : Config
config = record {
  domain = text "ellidri.localdomain";
  org_name = text "org";
  org_location = text "here";
  org_mail = text "admin@localdomain";
  motd_file = [];
  password = [];
  default_chan_mode = text "+nt";
  opers = [];
  awaylen = 300;
  channellen = 50;
  keylen = 24;
  kicklen = 300;
  namelen = 64;
  nicklen = 30;
  topiclen = 300;
  userlen = 64;
}

abbrev started : State
started = new config none (text "today")

abbrev visited_first : State
visited_first = peer_joined 0 0 (text "127.0.0.1") started

abbrev first_asked : Option Outcome
first_asked = handle_message env 0 (said Command.nick (text "carol" ∷ [])) visited_first []

first_handled : first_asked ≡ some (the first_asked)
unfolding handle_message ellidri.State.Dispatch.handle_from Request.new Command.required_params
    ellidri.State.Dispatch.serve_request ellidri.Client.can_issue_request
    ellidri.Client.Connection.apply run_request ellidri.State.Dispatch.after_handler
    ellidri.State.send_notification ellidri.State.Session.with_client ellidri.State.Dispatch.advance
    ellidri.Client.apply_request is_registered ellidri.State.Dispatch.finish ellidri.Buffers.lr_end
    ellidri.Buffers.reply_with ellidri.Buffers.new_reply ellidri.Buffers.trailing_param
    ellidri.State.Dispatch.label_of ellidri.Message.tags ellidri.State.Session.cmd_nick peer_joined
    ellidri.Names.nickname_try_from Client.new Unicase.unicase_eq Unicase.ascii new
first_handled = refl

first_run : Reach started (the first_asked).state
unfolding new
first_run = next (next start (connected 0 0 (text "127.0.0.1") started refl)) (
    handled env 0 (said Command.nick (text "carol" ∷ [])) visited_first [] (the first_asked)
      first_handled)

Reach-IsServed_example : IsServed (the first_asked).state
Reach-IsServed_example = Reach-IsServed config none (text "today") (the first_asked).state first_run

-- Bob joins a channel that does not exist.
join_one-IsEntered_example :
    (r : World × Bool) × (join_one 2 bob (text "#den") none world ≡ some r)
    × (r.1 ≡ lets_in 2 bob none (get same_name (text "#den") server.channels))
    × IsEntered 2 (text "#den") server r.1 r.0.state
unfolding is_registered
join_one-IsEntered_example =
    join_one-IsEntered 2 bob (text "#den") none world server-IsServed (bob, refl, refl)
      (ground arith) (ground arith)

run_request_total_example : is_some (run_request env 2 (Request.join (text "#den") []) world) ≡ true
unfolding is_registered
run_request_total_example =
    run_request_total env 2 (Request.join (text "#den") []) world bob server-IsServed refl
      (refl, ground arith, ground arith)
