-- ===== src/State/Served/Reach.antt =====
-- The invariant of the state of src/state/mod.rs over every run of a server.
use ellidri.Prelude.{
  ==_iff, Text, text, get-put, ==-IsSame, ℕ, ◌≡◌, sym, ap, ◌⊎◌, inl, inr, Option, none, some, [],
  arith,
}
use mathlib.Core.Path.{subst}
use ellidri.Client
use ellidri.Client.{Client}
use ellidri.State.{State, World, client_of, remove_client}
use ellidri.State.Server.{
  Config, new, rehash, peer_joined, peer_quit, remove_if_unregistered, Step, reloaded, permit_taken,
  connected, disconnected, timed_out, handled, Reach, start, next,
}
use ellidri.State.Served.{IsServed, remove_client-IsServed}
use ellidri.State.Served.Messages.{handle_message-IsServed}

pub new-IsServed :
    (config : Config) (motd : Option Text) (created_at : Text)
    → IsServed (new config motd created_at)
unfolding new
new-IsServed config motd created_at = record {
  owned = λ n id h. ground arith;
  joined = λ id h. ground arith;
}

rehash-IsServed : (config : Config) (s : State) → IsServed s → IsServed (rehash config s)
unfolding rehash
rehash-IsServed config s served = record { owned = served.owned; joined = served.joined }

-- Who was there keeps its place when another connects.
peer_joined-client :
    (now id j : ℕ) (host : Text) (s : State) (c : Client)
    → client_of id s ≡ none
    → client_of j s ≡ some c
    → client_of j (peer_joined now id host s) ≡ some c
unfolding peer_joined
peer_joined-client now id j host s c free at = ground (
  arith,
  get-put ==-IsSame id j (Client.new s.domain host now) s.clients,
  ap (λ k. client_of k s),
  ==_iff id j,
)

peer_joined-IsServed :
    (now id : ℕ) (host : Text) (s : State)
    → client_of id s ≡ none
    → IsServed s
    → IsServed (peer_joined now id host s)
unfolding peer_joined
peer_joined-IsServed now id host s free served = record {
  owned = λ n j h.
      let (c, at, same) = served.owned n j h in
      (c, peer_joined-client now id j host s c free at, same);
  joined = λ j h.
      let (c, at, reg) = served.joined j h in
      (c, peer_joined-client now id j host s c free at, reg);
}

peer_quit-IsServed :
    (id : ℕ) (err : Option Text) (w : World)
    → IsServed w.state
    → IsServed (peer_quit id err w).state
unfolding peer_quit
peer_quit-IsServed id none w served = remove_client-IsServed id _ _ w served
peer_quit-IsServed id (some err) w served = remove_client-IsServed id err err w served

remove_if_unregistered-state :
    (id : ℕ) (w : World)
    → (remove_if_unregistered id w ≡ w)
      ⊎ (remove_if_unregistered id w
          ≡ remove_client id (text "Senpai is such a slowpoke... baka") [] w)
unfolding remove_if_unregistered
remove_if_unregistered-state id w = ground arith

-- Whatever one task does to the state keeps the invariant.
Step-IsServed : {s t : State} → Step s t → IsServed s → IsServed t
Step-IsServed (reloaded config s) served = rehash-IsServed config s served
Step-IsServed (permit_taken s) served = record { owned = served.owned; joined = served.joined }
Step-IsServed (connected now id host s free) served = peer_joined-IsServed now id host s free served
Step-IsServed (disconnected id err w) served = peer_quit-IsServed id err w served
Step-IsServed (timed_out id w) served = elim (remove_if_unregistered-state id w) [
  | inl e ↦ subst (λ v. IsServed v.state) (sym e) served
  | inr e ↦ subst (λ v. IsServed v.state) (sym e) (remove_client-IsServed id _ _ w served)
]
Step-IsServed (handled env id m s sent out h) served =
    handle_message-IsServed env id m s sent out served h

Reach-keeps : {s t : State} → IsServed s → Reach s t → IsServed t
Reach-keeps served start = served
Reach-keeps served (next r step) = Step-IsServed step (Reach-keeps served r)

-- Whatever connections come and go, whatever they send, and however often the configuration is
-- reloaded, as long as no handler panics, every nickname of the index leads to a client that has it, up to case, and every member of
-- a channel is a registered client.
pub Reach-IsServed :
    (config : Config) (motd : Option Text) (created_at : Text) (s : State)
    → Reach (new config motd created_at) s
    → IsServed s
Reach-IsServed config motd created_at s r = Reach-keeps (new-IsServed config motd created_at) r
