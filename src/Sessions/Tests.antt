-- ===== src/Sessions/Tests.antt =====
-- Runs of `Sessions`.
use mona_server.Base.{
  ℕ, ◌≡◌, refl, false, List, [], ◌∷◌, none, some, ◌==◌, ◌&&◌, if◌then◌else◌, lookup, arith,
}
use mona_server.Sessions.{
  Session, Sessions, Behaviour, sessions, session, has_peer, has_address, find_id, find_peer,
  find_address, next_id_after, create, receive, remove,
}
use mona_server.Sessions.Valid.{IsValid, sessions-IsValid, create-IsValid}
use mona_server.Sessions.Moved.{receive-Moves}
use mona_server.Sessions.Managed.{Manages, manage-Manages}
use mona_server.Sessions.Calls.{Call, creations, run, run-IsValid}
use mona_server.Sessions.Created.{create_lem, create_overwrites, remove_loses}

-- One session of peer 7 at address 100, then a second one of peer 8 at address 200.
abbrev one : Sessions
one = create sessions 3 7 100

abbrev two : Sessions
two = create one 3 8 200

sessions-next : sessions.next_id ≡ 1
unfolding sessions
sessions-next = refl

one-next : one.next_id ≡ 2
unfolding sessions create next_id_after
one-next = refl

one-IsValid : IsValid one
one-IsValid =
    create-IsValid sessions 3 7 100 sessions-IsValid (omega (arith, sessions-next))
      (omega (arith, sessions-next))

two-IsValid : IsValid two
two-IsValid =
    create-IsValid one 3 8 200 one-IsValid (omega (arith, one-next)) (omega (arith, one-next))

-- Peer 8's session fails to flush.
abbrev behaviour : Behaviour
behaviour = record { manage_kills = λ s. false; flush_kills = λ s. s.peer_id == 8 }

manage-Manages_example : Manages behaviour two
manage-Manages_example = manage-Manages behaviour two two-IsValid

abbrev calls : List Call
calls =
    Call.created 3 7 100
    ∷ Call.created 1 8 200
    ∷ Call.received 1 300
    ∷ Call.killed 1
    ∷ Call.managed
    ∷ []

calls-creations : creations calls ≡ 2
unfolding creations
calls-creations = refl

run-IsValid_example :
    (after : Sessions) × ((run behaviour calls sessions ≡ some after) × IsValid after)
run-IsValid_example = run-IsValid behaviour calls (omega (arith, calls-creations))

-- Peer 7's session.
abbrev seventh : Session
seventh = record {
  id = 1;
  options = 3;
  peer_id = 7;
  address = 100;
  died = false;
  disconnections = 0;
}

seventh_stored : lookup 0 two.store ≡ some seventh
unfolding create session sessions next_id_after
seventh_stored = refl

seventh_found : find_address two 100 ≡ some 0
unfolding create sessions find_address next_id_after has_address
seventh_found = refl

receive-Moves_example :
    (after : Sessions) × ((receive two 0 300 ≡ some after)
      × (((k : ℕ)
            → find_address after k
              ≡ (if k == 300 then some 0 else if k == 100 then none else find_address two k))
          × (((k : ℕ) → find_id after k ≡ find_id two k)
              × ((k : ℕ) → find_peer after k ≡ find_peer two k))))
receive-Moves_example =
    receive-Moves two 0 seventh 300 two-IsValid seventh_stored seventh_found (ground arith)

create_lem_example :
    let after = create two 1 9 300 in
    (find_id two two.next_id ≡ none)
    × ((lookup two.allocated two.store ≡ none)
        × (((p : ℕ)
              → lookup p after.store ≡ (
                  if p == two.allocated
                  then some (session two.next_id 1 9 300)
                  else lookup p two.store))
            × (((id : ℕ)
                  → find_id after id
                    ≡ (if id == two.next_id then some two.allocated else find_id two id))
                × (((k : ℕ)
                      → find_peer after k
                        ≡ (if has_peer 1 && (k == 9) then some two.allocated else find_peer two k))
                    × ((k : ℕ)
                        → find_address after k ≡ (
                            if has_address 1 && (k == 300)
                            then some two.allocated
                            else find_address two k))))))
create_lem_example = create_lem two 1 9 300 two-IsValid

-- The last id is next, and the first session is still there.
abbrev full : Sessions
full = record {
  next_id = 4294967295;
  by_id = (1, 0) ∷ [];
  by_peer = [];
  by_address = [];
  store = (0, seventh) ∷ [];
  allocated = 4294967294;
}

full_zero : find_id full 0 ≡ none
unfolding find_id
full_zero = refl

full_one : find_id full 1 ≡ some 0
unfolding find_id
full_one = refl

create_overwrites_example :
    let last = create full 0 9 300 in
    let zeroth = create last 0 9 300 in
    (last.next_id ≡ 0)
    × ((find_id zeroth 0 ≡ some 4294967295)
        × ((find_id zeroth 1 ≡ some 0) × (find_id (create zeroth 0 9 300) 1 ≡ some 4294967296)))
create_overwrites_example = create_overwrites full 0 0 9 300 (omega arith) full_zero full_one

remove_loses_example :
    let old = create one 1 9 300 in
    let both = create old 1 9 400 in
    (find_peer both 9 ≡ some old.allocated)
    × ((after : Sessions) × ((remove both one.next_id one.allocated ≡ some after)
          × ((find_id after old.next_id ≡ some old.allocated) × (find_peer after 9 ≡ none))))
remove_loses_example = remove_loses one 9 300 400 (omega (arith, one-next))
