-- ===== src/Sessions.antt =====
-- `Sessions` of MonaCore/include/Mona/Sessions.h and MonaCore/sources/Sessions.cpp, with what
-- MonaCore/sources/Session.cpp does with its tables. The sessions are in a store, and a pointer is
-- the number of an allocation; a step that follows a pointer to a deleted session gives `none`.
mod Sound
pub mod Valid
pub mod Moved
pub mod Managed
pub mod Calls
pub mod Created
mod Tests
use mona_server.Base.{
  ℕ, suc, ◌+◌, ◌%◌, ◌^◌, Bool, true, false, not, ◌&&◌, List, [], ◌∷◌, Option, none, some, ◌==◌,
  if◌then◌else◌, ◌>>=◌, bit_and, lookup, insert, erase,
}

-- A `Session`: the peer's id and address as numbers, `_sessionsOptions`, and how often the peer's
-- `onDisconnection` was called.
pub record Session : Type 0 where
  pub id : ℕ
  pub options : ℕ
  pub peer_id : ℕ
  pub address : ℕ
  pub died : Bool
  pub disconnections : ℕ

-- The tables, and the store with the number of the next allocation.
pub record Sessions : Type 0 where
  pub next_id : ℕ
  pub by_id : List (ℕ × ℕ)
  pub by_peer : List (ℕ × ℕ)
  pub by_address : List (ℕ × ℕ)
  pub store : List (ℕ × Session)
  pub allocated : ℕ

unfoldable pub sessions : Sessions
sessions = record {
  next_id = 1;
  by_id = [];
  by_peer = [];
  by_address = [];
  store = [];
  allocated = 0;
}

-- `options&BYPEER` and `options&BYADDRESS`.
unfoldable pub has_peer : ℕ → Bool
has_peer options = not (bit_and options 1 == 0)

unfoldable pub has_address : ℕ → Bool
has_address options = not (bit_and options 2 == 0)

-- The three `find`s.
unfoldable pub find_id : Sessions → ℕ → Option ℕ
find_id w id = lookup id w.by_id

unfoldable pub find_peer : Sessions → ℕ → Option ℕ
find_peer w peer_id = lookup peer_id w.by_peer

unfoldable pub find_address : Sessions → ℕ → Option ℕ
find_address w address = lookup address w.by_address

-- The constructor of `Session`, then `_id` and `_sessionsOptions`.
unfoldable pub session : ℕ → ℕ → ℕ → ℕ → Session
session id options peer_id address = record {
  id = id;
  options = options;
  peer_id = peer_id;
  address = address;
  died = false;
  disconnections = 0;
}

unfoldable pub is_found : Option ℕ → Bool
is_found none = false
is_found (some p) = true

-- The loop on `_nextId`, whose test holds at 0 alone: a second turn leaves it at 1.
unfoldable pub next_id_after : List (ℕ × ℕ) → ℕ → ℕ
next_id_after by_id id =
    let next = (id + 1) % 2 ^ 32 in
    if (next == 0) && is_found (lookup next by_id) then (next + 1) % 2 ^ 32 else next

unfoldable pub create : Sessions → ℕ → ℕ → ℕ → Sessions
create w options peer_id address =
    let p = w.allocated in
    let by_id = insert w.next_id p w.by_id in
    record {
      next_id = next_id_after by_id w.next_id;
      by_id = by_id;
      by_peer = if has_peer options then insert peer_id p w.by_peer else w.by_peer;
      by_address = if has_address options then insert address p w.by_address else w.by_address;
      store = insert p (session w.next_id options peer_id address) w.store;
      allocated = suc p;
    }

-- `Session::kill`, and the destructor, which kills.
unfoldable pub kill : Session → Session
kill s = if s.died then s else record s { died = true; disconnections = suc s.disconnections }

-- `remove`, at the entry of an id.
unfoldable pub remove : Sessions → ℕ → ℕ → Option Sessions
remove w id p = do
  s ← lookup p w.store
  some (record w {
    by_peer = if has_peer s.options then erase s.peer_id w.by_peer else w.by_peer;
    by_address = if has_address s.options then erase s.address w.by_address else w.by_address;
    store = erase p w.store;
    by_id = erase id w.by_id;
  })

-- `updateAddress` for a session that has its new address.
unfoldable pub update_address : Sessions → ℕ → Session → ℕ → Sessions
update_address w p s old_address =
    if has_address s.options && is_found (lookup old_address w.by_address)
    then record w { by_address = insert s.address p (erase old_address w.by_address) }
    else w

-- `Session::receive` from an address, up to the packet's handler. Every session of the store is
-- managed by the tables, so `_pSessions` is not null.
unfoldable pub receive : Sessions → ℕ → ℕ → Option Sessions
receive w p address = do
  s ← lookup p w.store
  let moved = record s { address = address } in
      let w' : Sessions = record w { store = insert p moved w.store } in
      some (
        if s.address == address
        then w
        else if s.id == 0
        then w'
        else update_address w' p moved s.address)

-- What the derived class does in `manage` and `flush`, seen from here: whether it kills.
pub record Behaviour : Type 0 where
  pub manage_kills : Session → Bool
  pub flush_kills : Session → Bool

-- The body of the loop of `manage` before the removal.
unfoldable pub tick : Behaviour → Session → Session
tick b s =
    let managed : Session = if s.died then s else if b.manage_kills s then kill s else s in
    if managed.died then managed else if b.flush_kills managed then kill managed else managed

unfoldable pub manage_one : Behaviour → Sessions → ℕ → ℕ → Option Sessions
manage_one b w id p = do
  s ← lookup p w.store
  let ticked = tick b s in
      let w' : Sessions = record w { store = insert p ticked w.store } in
      if ticked.died then remove w' id p else some w'

-- The loop from an iterator on: `remove(it++)` takes away the entry it has left.
unfoldable pub manage_from : Behaviour → List (ℕ × ℕ) → Sessions → Option Sessions
manage_from b [] w = some w
manage_from b ((id, p) ∷ rest) w = manage_one b w id p >>= manage_from b rest

unfoldable pub manage : Behaviour → Sessions → Option Sessions
manage b w = manage_from b w.by_id w
