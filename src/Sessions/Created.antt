-- ===== src/Sessions/Created.antt =====
-- What finds a new session, and what a second session with the same key costs.
use mona_server.Base.{
  ℕ, suc, ◌+◌, ◌<◌, ◌^◌, ◌≡◌, refl, ◌∙◌, Bool, true, false, List, none, some, if◌then◌else◌, lookup,
  insert, erase, lookup-insert, lookup-insert_other, lookup-erase, lookup-erase_other,
  lookup-insert_at, arith, ◌==◌, ◌&&◌, ◌-◌, ◌%◌,
}
use mona_server.Sessions.{
  Sessions, session, has_peer, has_address, is_found, find_id, find_peer, find_address,
  next_id_after, create, remove,
}
use mona_server.Sessions.Valid.{IsValid, unused, unallocated}

insert_if :
    (b : Bool) (k j p : ℕ) (t : List (ℕ × ℕ))
    → lookup j (if b then insert k p t else t) ≡ (if b && (j == k) then some p else lookup j t)
insert_if true k j p t = lookup-insert_at k j p t
insert_if false k j p t = refl

-- On valid tables the next id and the next allocation are unused. After `create` the new session
-- is in the store and its id finds it, its peer id and its address find it exactly if the options
-- ask for that, and everything else is found as before.
pub create_lem :
    (w : Sessions) (options peer_id address : ℕ)
    → IsValid w
    → let after = create w options peer_id address in
      (find_id w w.next_id ≡ none)
      × ((lookup w.allocated w.store ≡ none)
          × (((p : ℕ)
                → lookup p after.store ≡ (
                    if p == w.allocated
                    then some (session w.next_id options peer_id address)
                    else lookup p w.store))
              × (((id : ℕ)
                    → find_id after id
                      ≡ (if id == w.next_id then some w.allocated else find_id w id))
                  × (((k : ℕ)
                        → find_peer after k ≡ (
                            if has_peer options && (k == peer_id)
                            then some w.allocated
                            else find_peer w k))
                      × ((k : ℕ)
                          → find_address after k ≡ (
                              if has_address options && (k == address)
                              then some w.allocated
                              else find_address w k))))))
unfolding create find_id find_peer find_address
create_lem w options peer_id address v = (
  unused w v,
  (
    unallocated w v,
    (
      λ p. lookup-insert_at w.allocated p (session w.next_id options peer_id address) w.store,
      (
        λ id. lookup-insert_at w.next_id id w.allocated w.by_id,
        (
          λ k. insert_if (has_peer options) peer_id k w.allocated w.by_peer,
          λ k. insert_if (has_address options) address k w.allocated w.by_address,
        ),
      ),
    ),
  ),
)

next_id-max :
    (t : List (ℕ × ℕ)) (id : ℕ) → id ≡ 2 ^ 32 - 1 → lookup 0 t ≡ none → next_id_after t id ≡ 0
unfolding next_id_after is_found
next_id-max t id e zero =
    let wraps : (id + 1) % 2 ^ 32 ≡ 0 = omega (arith, e) in rw (wraps, zero) refl

next_id-zero : (t : List (ℕ × ℕ)) → next_id_after t 0 ≡ 1
unfolding next_id_after
next_id-zero t = refl

-- When the id 2 ^ 32 - 1 is next, no session has the id 0, and a session has the id 1: `create` is
-- followed by the id 0, which the code takes for a session that is not managed, and the third
-- `create` takes the id 1 away from the session that has it.
pub create_overwrites :
    (w : Sessions) (p options peer_id address : ℕ)
    → w.next_id ≡ 2 ^ 32 - 1
    → find_id w 0 ≡ none
    → find_id w 1 ≡ some p
    → let last = create w options peer_id address in
      let zeroth = create last options peer_id address in
      let first = create zeroth options peer_id address in
      (last.next_id ≡ 0)
      × ((find_id zeroth 0 ≡ some (suc w.allocated))
          × ((find_id zeroth 1 ≡ some p) × (find_id first 1 ≡ some (suc (suc w.allocated)))))
unfolding create find_id
create_overwrites w p options peer_id address full zero one =
    let last = insert w.next_id w.allocated w.by_id in
    let none_zero : lookup 0 last ≡ none =
      lookup-insert_other w.next_id 0 w.allocated w.by_id (omega (arith, full)) ∙ zero in
    let wraps : next_id_after last w.next_id ≡ 0 = next_id-max last w.next_id full none_zero in
    let zeroth = insert 0 (suc w.allocated) last in
    (
      wraps,
      (
        rw wraps (lookup-insert 0 (suc w.allocated) last),
        (
          rw wraps (
              lookup-insert_other 0 1 (suc w.allocated) last (omega arith)
              ∙ lookup-insert_other w.next_id 1 w.allocated w.by_id (omega (arith, full))
              ∙ one),
          rw (wraps, next_id-zero zeroth) (lookup-insert 1 (suc (suc w.allocated)) zeroth),
        ),
      ),
    )

next_id-small : (t : List (ℕ × ℕ)) (id : ℕ) → suc id < 2 ^ 32 → next_id_after t id ≡ suc id
unfolding next_id_after
next_id-small t id h = ground arith

-- Two sessions are created by peer with the same peer id, before the ids wrap. The second takes
-- the entry of the first; the removal of the first takes that entry away, so that the peer id
-- finds none, although the second is still found by its id.
pub remove_loses :
    (w : Sessions) (peer_id address address' : ℕ)
    → suc w.next_id < 2 ^ 32
    → let old = create w 1 peer_id address in
      let both = create old 1 peer_id address' in
      (find_peer both peer_id ≡ some old.allocated)
      × ((after : Sessions) × ((remove both w.next_id w.allocated ≡ some after)
            × ((find_id after old.next_id ≡ some old.allocated)
                × (find_peer after peer_id ≡ none))))
unfolding create find_id find_peer remove has_peer has_address session
remove_loses w peer_id address address' h =
    let p = w.allocated in
    let n = w.next_id in
    let ids = insert n p w.by_id in
    let m = next_id_after ids n in
    let next : m ≡ suc n = next_id-small ids n h in
    let peers = insert peer_id (suc p) (insert peer_id p w.by_peer) in
    let stored =
      lookup-insert_other (suc p) p (session m 1 peer_id address')
        (insert p (session n 1 peer_id address) w.store) (omega arith)
      ∙ lookup-insert p (session n 1 peer_id address) w.store in
    (
      lookup-insert peer_id (suc p) (insert peer_id p w.by_peer),
      (
        record (create (create w 1 peer_id address) 1 peer_id address') {
          by_peer = erase peer_id peers;
          store = erase p (
              insert (suc p) (session m 1 peer_id address')
                (insert p (session n 1 peer_id address) w.store));
          by_id = erase n (insert m (suc p) ids);
        },
        (
          rw stored refl,
          (
            lookup-erase_other n m (insert m (suc p) ids) (omega (arith, next))
                ∙ lookup-insert m (suc p) ids,
            lookup-erase peer_id peers,
          ),
        ),
      ),
    )
