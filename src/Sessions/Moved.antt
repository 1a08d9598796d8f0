-- ===== src/Sessions/Moved.antt =====
-- What a packet from another address does to the tables.
use mona_server.Base.{
  ℕ, ◌≡◌, ◌≢◌, refl, sym, ◌∙◌, ap, subst, true, false, List, Option, none, some, ◌&&◌,
  if◌then◌else◌, lookup, insert, erase, lookup-insert, lookup-insert_other, lookup-insert_at,
  lookup-erase_at, arith, ◌==◌, Bool-cases, inl, inr,
}
use mona_server.Sessions.{
  Session, Sessions, has_address, is_found, update_address, receive, find_id, find_peer,
  find_address,
}
use mona_server.Sessions.Sound.{Holds, IsSound, found, insert_cases, erase_less, insert_same}
use mona_server.Sessions.Valid.{IsValid, IdKey, PeerKey, AddressKey, same_known}

module _ (w : Sessions) (p : ℕ) (s : Session) (address : ℕ) (v : IsValid w)
    (at : lookup p w.store ≡ some s) where
  abbrev readdressed : Session
  readdressed = record s { address = address }

  abbrev kept : Sessions
  kept = record w { store = insert p readdressed w.store }

  -- Another session's entry stays sound.
  beside :
      (k q : ℕ)
      → lookup k w.by_address ≡ some q
      → q ≢ p
      → Holds (insert p readdressed w.store) q (AddressKey k)
  beside k q e other =
      let h = v.addresses k q e in
      record {
        target = h.target;
        stored = lookup-insert_other p q readdressed w.store other ∙ h.stored;
        holds = h.holds;
      }

  -- The one entry that may lead to a session is at its address.
  own : (k : ℕ) → lookup k w.by_address ≡ some p → AddressKey k s
  own k e = let h = v.addresses k p e in subst (AddressKey k) (found (sym h.stored ∙ at)) h.holds

  swapped :
      has_address s.options ≡ true
      → IsSound AddressKey
          (insert address p (erase s.address w.by_address))
          (insert p readdressed w.store)
  swapped flag k q e = elim (insert_cases address k p (erase s.address w.by_address) e) [
    | inl (here, is) ↦ record {
      target = readdressed;
      stored =
          ap (λ (i : ℕ). lookup i (insert p readdressed w.store)) (sym is)
          ∙ lookup-insert p readdressed w.store;
      holds = (sym here, flag);
    }
    | inr (there, _) ↦
        let x = erase_less s.address k w.by_address there in
        beside k q x.0 (λ same. x.1 (sym (own k (x.0 ∙ ap some same)).0))
  ]

  untouched :
      (has_address s.options && is_found (lookup s.address w.by_address)) ≡ false
      → IsSound AddressKey w.by_address (insert p readdressed w.store)
  unfolding is_found
  untouched flag k q e = beside k q e (λ same.
      let o = own k (e ∙ ap some same) in
      let clash : (has_address s.options && is_found (lookup s.address w.by_address)) ≡ true =
        rw (o.1, o.0, e) refl in
      absurd (ground (arith, clash, flag)))

  with_table :
      (t : List (ℕ × ℕ))
      → IsSound AddressKey t (insert p readdressed w.store)
      → IsValid (record kept { by_address = t })
  with_table t sound = record {
    small = v.small;
    ids = insert_same (IdKey w.next_id) w.by_id w.store p s readdressed v.ids at (λ k x. x);
    peers = insert_same PeerKey w.by_peer w.store p s readdressed v.peers at (λ k x. x);
    addresses = sound;
    known = same_known w p s readdressed v at refl;
    ordered = v.ordered;
  }

  updated : IsValid (update_address kept p readdressed s.address)
  unfolding update_address
  updated = elim (Bool-cases (has_address s.options && is_found (lookup s.address w.by_address))) [
    | inl e ↦
        rw e (
          with_table (insert address p (erase s.address w.by_address))
            (swapped (ground (arith, e))))
    | inr e ↦ rw e (with_table w.by_address (untouched e))
  ]

  id_positive : (s.id == 0) ≡ false
  id_positive = let k = (v.known p s at).1 in ground (arith, (v.ids s.id p k).holds.1.0)

-- A packet is received.
pub record Receives (w : Sessions) (p : ℕ) (s : Session) (address : ℕ) : Type 0 where
  pub after : Sessions
  pub returns : receive w p address ≡ some after
  pub valid : IsValid after
  pub has_moved : lookup p after.store ≡ some (record s { address = address })
  pub same_ids : after.by_id ≡ w.by_id
  pub same_next : after.next_id ≡ w.next_id

same_address :
    (s : Session) (address : ℕ) → (s.address == address) ≡ true → s ≡ record s { address = address }
same_address s address e =
    let e' : s.address ≡ address = ground arith in
    ap (λ (a : ℕ). let t : Session = record s { address = a } in t) e'

update_address-same :
    (w : Sessions) (p : ℕ) (s : Session) (old : ℕ)
    → ((update_address w p s old).store ≡ w.store)
      × (((update_address w p s old).by_id ≡ w.by_id)
          × ((update_address w p s old).next_id ≡ w.next_id))
unfolding update_address
update_address-same w p s old =
    elim (Bool-cases (has_address s.options && is_found (lookup old w.by_address))) [
      | inl e ↦ rw e (refl, (refl, refl))
      | inr e ↦ rw e (refl, (refl, refl))
    ]

pub receive-Receives :
    (w : Sessions) (p : ℕ) (s : Session) (address : ℕ)
    → IsValid w
    → lookup p w.store ≡ some s
    → Receives w p s address
unfolding receive
receive-Receives w p s address v at = elim (Bool-cases (s.address == address)) [
  | inl e ↦ record {
    after = w;
    returns = rw (at, e) refl;
    valid = v;
    has_moved = at ∙ ap some (same_address s address e);
    same_ids = refl;
    same_next = refl;
  }
  | inr e ↦
      let m = readdressed w p s address v at in
      let k = kept w p s address v at in
      let same = update_address-same k p m s.address in
      record {
        after = update_address k p m s.address;
        returns = rw (at, e, id_positive w p s address v at) refl;
        valid = updated w p s address v at;
        has_moved = ap (lookup p) same.0 ∙ lookup-insert p m w.store;
        same_ids = same.1.0;
        same_next = same.1.1;
      }
]

-- A session of valid tables that its address finds receives a packet from another address. The
-- call returns; then the new address finds the session, the old one finds none, and every other
-- address finds what it found. The tables of ids and peer ids stay as they are.
pub receive-Moves :
    (w : Sessions) (p : ℕ) (s : Session) (address : ℕ)
    → IsValid w
    → lookup p w.store ≡ some s
    → find_address w s.address ≡ some p
    → s.address ≢ address
    → (after : Sessions) × ((receive w p address ≡ some after)
        × (((k : ℕ)
              → find_address after k ≡ (
                  if k == address
                  then some p
                  else if k == s.address
                  then none
                  else find_address w k))
            × (((k : ℕ) → find_id after k ≡ find_id w k)
                × ((k : ℕ) → find_peer after k ≡ find_peer w k))))
unfolding receive update_address find_address find_id find_peer is_found
receive-Moves w p s address v at there differs =
    let e : (s.address == address) ≡ false = ground arith in
    let h = own w p s address v at s.address there in
    let m = readdressed w p s address v at in
    let t = erase s.address w.by_address in
    (
      record (kept w p s address v at) { by_address = insert address p t },
      (
        rw (at, e, id_positive w p s address v at, h.1, there) refl,
        (
          λ k.
              lookup-insert_at address k p t
              ∙ ap (λ (o : Option ℕ). if k == address then some p else o)
                  (lookup-erase_at s.address k w.by_address),
          (λ k. refl, λ k. refl),
        ),
      ),
    )
