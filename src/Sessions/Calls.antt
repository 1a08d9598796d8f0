-- ===== src/Sessions/Calls.antt =====
-- Sequences of calls on the sessions of a server, in any order.
use mona_server.Base.{
  ℕ, suc, ◌+◌, ◌<◌, ◌^◌, ◌≡◌, refl, List, [], ◌∷◌, Option, none, some, ◌>>=◌, lookup, insert, arith,
}
use mona_server.Sessions.{
  Session, Sessions, Behaviour, sessions, find_id, next_id_after, create, kill, receive, manage,
}
use mona_server.Sessions.Valid.{IsValid, sessions-IsValid, create-IsValid, changed-IsValid}
use mona_server.Sessions.Moved.{receive-Receives}
use mona_server.Sessions.Managed.{kill-SameKeys, manage-Manages}

-- What can happen: `create` with its options, peer's id and address, a packet for an id from an
-- address, `kill` of an id's session, and `manage`.
pub data Call : Type 0 where
  created : ℕ → ℕ → ℕ → Call
  received : ℕ → ℕ → Call
  killed : ℕ → Call
  managed : Call

unfoldable pub kill_stored : Sessions → ℕ → Option Sessions
kill_stored w p = do s ← lookup p w.store; some (record w { store = insert p (kill s) w.store })

-- An operation on the session that an id finds.
unfoldable pub on_found : Option ℕ → Sessions → (ℕ → Option Sessions) → Option Sessions
on_found none w f = some w
on_found (some p) w f = f p

unfoldable pub call : Behaviour → Call → Sessions → Option Sessions
call b (Call.created options peer_id address) w = some (create w options peer_id address)
call b (Call.received id address) w = on_found (find_id w id) w (λ p. receive w p address)
call b (Call.killed id) w = on_found (find_id w id) w (kill_stored w)
call b Call.managed w = manage b w

unfoldable pub run : Behaviour → List Call → Sessions → Option Sessions
run b [] w = some w
run b (c ∷ cs) w = call b c w >>= run b cs

unfoldable pub creations : List Call → ℕ
creations [] = 0
creations (Call.created options peer_id address ∷ cs) = suc (creations cs)
creations (Call.received id address ∷ cs) = creations cs
creations (Call.killed id ∷ cs) = creations cs
creations (Call.managed ∷ cs) = creations cs

-- A call returns valid tables, and the next id grows by at most the bound.
record Steps (w : Sessions) (result : Option Sessions) (more : ℕ) : Type 0 where
  after : Sessions
  returns : result ≡ some after
  valid : IsValid after
  next_is : after.next_id ≡ w.next_id + more

on_found-Steps :
    (o : Option ℕ) (w : Sessions) (f : ℕ → Option Sessions)
    → IsValid w
    → ((p : ℕ) → o ≡ some p → Steps w (f p) 0)
    → Steps w (on_found o w f) 0
unfolding on_found
on_found-Steps none w f v h = record { after = w; returns = refl; valid = v; next_is = omega arith }
on_found-Steps (some p) w f v h = h p refl

create-Steps :
    (w : Sessions) (options peer_id address : ℕ)
    → IsValid w
    → 0 < w.next_id
    → suc w.next_id < 2 ^ 32
    → Steps w (some (create w options peer_id address)) 1
unfolding create next_id_after
create-Steps w options peer_id address v first h = record {
  after = create w options peer_id address;
  returns = refl;
  valid = create-IsValid w options peer_id address v h first;
  next_is = ground (arith, h);
}

kill-Steps :
    (w : Sessions) (p : ℕ) (s : Session)
    → IsValid w
    → lookup p w.store ≡ some s
    → Steps w (kill_stored w p) 0
unfolding kill_stored
kill-Steps w p s v at =
    let k = kill-SameKeys s in
    record {
      after = record w { store = insert p (kill s) w.store };
      returns = rw at refl;
      valid = changed-IsValid w p s (kill s) v at k.id k.options k.peer_id k.address;
      next_is = omega arith;
    }

receive-Steps :
    (w : Sessions) (p : ℕ) (s : Session) (address : ℕ)
    → IsValid w
    → lookup p w.store ≡ some s
    → Steps w (receive w p address) 0
receive-Steps w p s address v at =
    let r = receive-Receives w p s address v at in
    record {
      after = r.after;
      returns = r.returns;
      valid = r.valid;
      next_is = omega (arith, r.same_next);
    }

manage-Steps : (b : Behaviour) (w : Sessions) → IsValid w → Steps w (manage b w) 0
manage-Steps b w v =
    let r = manage-Manages b w v in
    record {
      after = r.after;
      returns = r.returns;
      valid = r.valid;
      next_is = omega (arith, r.same_next);
    }

call-Steps :
    (b : Behaviour) (c : Call) (w : Sessions)
    → IsValid w
    → 0 < w.next_id
    → w.next_id + creations (c ∷ []) < 2 ^ 32
    → Steps w (call b c w) (creations (c ∷ []))
unfolding call creations find_id
call-Steps b (Call.created options peer_id address) w v first h =
    create-Steps w options peer_id address v first (omega (arith, h))
call-Steps b (Call.received id address) w v first h =
    on_found-Steps (lookup id w.by_id) w (λ p. receive w p address) v
      (λ p e. let x = v.ids id p e in receive-Steps w p x.target address v x.stored)
call-Steps b (Call.killed id) w v first h =
    on_found-Steps (lookup id w.by_id) w (kill_stored w) v
      (λ p e. let x = v.ids id p e in kill-Steps w p x.target v x.stored)
call-Steps b Call.managed w v first h = manage-Steps b w v

creations-cons :
    (c : Call) (cs : List Call) → creations (c ∷ cs) ≡ creations (c ∷ []) + creations cs
unfolding creations
creations-cons (Call.created options peer_id address) cs = omega arith
creations-cons (Call.received id address) cs = omega arith
creations-cons (Call.killed id) cs = omega arith
creations-cons Call.managed cs = omega arith

run-Steps :
    (b : Behaviour) (cs : List Call) (w : Sessions)
    → IsValid w
    → 0 < w.next_id
    → w.next_id + creations cs < 2 ^ 32
    → Steps w (run b cs w) (creations cs)
unfolding run creations
run-Steps b [] w v first h = record { after = w; returns = refl; valid = v; next_is = ground arith }
run-Steps b (c ∷ cs) w v first h =
    let sum = creations-cons c cs in
    let one = call-Steps b c w v first (omega (arith, h, sum)) in
    let more =
      run-Steps b cs one.after one.valid (omega (arith, one.next_is, first))
        (omega (arith, one.next_is, h, sum)) in
    record {
      after = more.after;
      returns = rw one.returns more.returns;
      valid = more.valid;
      next_is = omega (arith, more.next_is, one.next_is, sum);
    }

sessions-next_id : sessions.next_id ≡ 1
unfolding sessions
sessions-next_id = refl

-- A server starts without sessions, and in any order come calls of `create`, packets from any
-- addresses, `kill` and `manage`, where the virtual `manage` and `flush` of a session may kill
-- that session, and fewer than 2 ^ 32 - 1 sessions are created. Every call returns, so that no
-- pointer to a deleted session is followed. At the end every id, peer id and address that a table
-- holds finds a session of the store which has it as its own, and every session of the store is
-- found by its id.
pub run-IsValid :
    (b : Behaviour) (cs : List Call)
    → suc (creations cs) < 2 ^ 32
    → (after : Sessions) × ((run b cs sessions ≡ some after) × IsValid after)
run-IsValid b cs h =
    let first = sessions-next_id in
    let r =
      run-Steps b cs sessions sessions-IsValid (omega (arith, first)) (omega (arith, first, h)) in
    (r.after, (r.returns, r.valid))
