-- ===== src/Sessions/Valid.antt =====
-- The tables and the store agree, and each operation keeps it so.
use mona_server.Base.{
  ℕ, suc, ◌<◌, ◌^◌, ◌≡◌, ◌≢◌, refl, sym, ◌∙◌, ap, true, List, none, some, lookup, insert, erase,
  lookup-insert, lookup-insert_other, lookup-erase_other, IsOrdered, insert-IsOrdered,
  erase-IsOrdered, arith, Bool-cases, if◌then◌else◌, Option-cases, inl, inr,
}
use mona_server.Sessions.{
  Session, Sessions, sessions, has_peer, has_address, session, next_id_after, create, remove,
}
use mona_server.Sessions.Sound.{
  IsSound, found, apart, insert_cases, erase_less, erase_if-IsSound, stored_beside, insert-IsSound,
  insert_same, erase-IsSound,
}

abbrev pub IdKey : ℕ → ℕ → Session → Type 0
IdKey next k s = (s.id ≡ k) × ((0 < k) × (k < next))

abbrev pub PeerKey : ℕ → Session → Type 0
PeerKey k s = (s.peer_id ≡ k) × (has_peer s.options ≡ true)

abbrev pub AddressKey : ℕ → Session → Type 0
AddressKey k s = (s.address ≡ k) × (has_address s.options ≡ true)

-- A session of the store was allocated, and its id gives it.
abbrev pub IsKnown : Sessions → Type 0
IsKnown w =
    (p : ℕ) (s : Session)
    → lookup p w.store ≡ some s
    → (p < w.allocated) × (lookup s.id w.by_id ≡ some p)

pub record IsValid (w : Sessions) : Type 0 where
  pub small : w.next_id < 2 ^ 32
  pub ids : IsSound (IdKey w.next_id) w.by_id w.store
  pub peers : IsSound PeerKey w.by_peer w.store
  pub addresses : IsSound AddressKey w.by_address w.store
  pub known : IsKnown w
  pub ordered : IsOrdered w.by_id

pub sessions-IsValid : IsValid sessions
unfolding sessions
sessions-IsValid = record {
  small = omega arith;
  ids = λ k p e. absurd cc;
  peers = λ k p e. absurd cc;
  addresses = λ k p e. absurd cc;
  known = λ p s e. absurd cc;
  ordered = tt;
}

-- No session has the next allocation or the next id.
pub unallocated : (w : Sessions) → IsValid w → lookup w.allocated w.store ≡ none
unallocated w v = elim (Option-cases (lookup w.allocated w.store)) [
  | inl e ↦ e
  | inr (s, e) ↦ absurd (omega (arith, (v.known w.allocated s e).0))
]

pub unused : (w : Sessions) → IsValid w → lookup w.next_id w.by_id ≡ none
unused w v = elim (Option-cases (lookup w.next_id w.by_id)) [
  | inl e ↦ e
  | inr (p, e) ↦ absurd (omega (arith, (v.ids w.next_id p e).holds.1.1))
]

next_id-suc : (t : List (ℕ × ℕ)) (id : ℕ) → suc id < 2 ^ 32 → next_id_after t id ≡ suc id
unfolding next_id_after
next_id-suc t id h = ground arith

IdKey-suc : (n k : ℕ) (s : Session) → IdKey n k s → IdKey (suc n) k s
IdKey-suc n k s h = (h.0, (h.1.0, omega (arith, h.1.1)))

module _ (w : Sessions) (options peer_id address : ℕ) (v : IsValid w) (h : suc w.next_id < 2 ^ 32)
    (first : 0 < w.next_id) where
  abbrev made : Session
  made = session w.next_id options peer_id address

  create_ids :
      IsSound
        (IdKey (suc w.next_id))
        (insert w.next_id w.allocated w.by_id)
        (insert w.allocated made w.store)
  unfolding session
  create_ids =
      insert-IsSound (IdKey (suc w.next_id)) w.by_id w.store w.next_id w.allocated made
        (λ k p e.
          let x = v.ids k p e in
          record {
            target = x.target;
            stored = x.stored;
            holds = IdKey-suc w.next_id k x.target x.holds;
          })
        (unallocated w v) (refl, (first, omega arith))

  create_peers :
      IsSound PeerKey
        (if has_peer options then insert peer_id w.allocated w.by_peer else w.by_peer)
        (insert w.allocated made w.store)
  unfolding session
  create_peers = elim (Bool-cases (has_peer options)) [
    | inl e ↦ rw e (
        insert-IsSound PeerKey w.by_peer w.store peer_id w.allocated made v.peers (unallocated w v)
          (refl, e))
    | inr e ↦
        rw e (stored_beside PeerKey w.by_peer w.store w.allocated made v.peers (unallocated w v))
  ]

  create_addresses :
      IsSound AddressKey
        (if has_address options then insert address w.allocated w.by_address else w.by_address)
        (insert w.allocated made w.store)
  unfolding session
  create_addresses = elim (Bool-cases (has_address options)) [
    | inl e ↦ rw e (
        insert-IsSound AddressKey w.by_address w.store address w.allocated made v.addresses
          (unallocated w v) (refl, e))
    | inr e ↦ rw e (
        stored_beside AddressKey w.by_address w.store w.allocated made v.addresses
          (unallocated w v))
  ]

  create_known :
      (p : ℕ) (s : Session)
      → lookup p (insert w.allocated made w.store) ≡ some s
      → (p < suc w.allocated) × (lookup s.id (insert w.next_id w.allocated w.by_id) ≡ some p)
  unfolding session
  create_known p s e = elim (insert_cases w.allocated p made w.store e) [
    | inl (here, is) ↦ (
      omega (arith, here),
      ap (λ (x : Session). lookup x.id (insert w.next_id w.allocated w.by_id)) (sym is)
          ∙ lookup-insert w.next_id w.allocated w.by_id
          ∙ ap some (sym here),
    )
    | inr (there, _) ↦
        let k = v.known p s there in
        (
          omega (arith, k.0),
          lookup-insert_other w.next_id s.id w.allocated w.by_id
                (apart w.by_id w.next_id s.id (sym (unused w v)) k.1)
              ∙ k.1,
        )
  ]

  pub create-IsValid : IsValid (create w options peer_id address)
  unfolding create
  create-IsValid =
      let step = next_id-suc (insert w.next_id w.allocated w.by_id) w.next_id h in
      record {
        small = rw step h;
        ids = rw step create_ids;
        peers = create_peers;
        addresses = create_addresses;
        known = create_known;
        ordered = insert-IsOrdered w.next_id w.allocated w.by_id v.ordered;
      }

pub same_known :
    (w : Sessions) (p : ℕ) (s s' : Session)
    → IsValid w
    → lookup p w.store ≡ some s
    → s'.id ≡ s.id
    → (q : ℕ) (r : Session) → lookup q (insert p s' w.store) ≡ some r
    → (q < w.allocated) × (lookup r.id w.by_id ≡ some q)
same_known w p s s' v at e q r x = elim (insert_cases p q s' w.store x) [
  | inl (here, is) ↦
      let k = v.known p s at in
      (
        omega (arith, here, k.0),
        ap (λ (i : ℕ). lookup i w.by_id) (sym (ap (λ (z : Session). z.id) is) ∙ e)
            ∙ k.1
            ∙ ap some (sym here),
      )
  | inr (there, _) ↦ v.known q r there
]

-- A session that changes and keeps its keys.
pub changed-IsValid :
    (w : Sessions) (p : ℕ) (s s' : Session)
    → IsValid w
    → lookup p w.store ≡ some s
    → s'.id ≡ s.id
    → s'.options ≡ s.options
    → s'.peer_id ≡ s.peer_id
    → s'.address ≡ s.address
    → IsValid (record w { store = insert p s' w.store })
changed-IsValid w p s s' v at e f g h = record {
  small = v.small;
  ids = insert_same (IdKey w.next_id) w.by_id w.store p s s' v.ids at (λ k x. (e ∙ x.0, x.1));
  peers =
      insert_same PeerKey w.by_peer w.store p s s' v.peers at
        (λ k x. (g ∙ x.0, ap has_peer f ∙ x.1));
  addresses =
      insert_same AddressKey w.by_address w.store p s s' v.addresses at
        (λ k x. (h ∙ x.0, ap has_address f ∙ x.1));
  known = same_known w p s s' v at e;
  ordered = v.ordered;
}

remove_known :
    (w : Sessions) (p : ℕ) (s : Session)
    → IsValid w
    → lookup p w.store ≡ some s
    → (q : ℕ) (r : Session) → lookup q (erase p w.store) ≡ some r
    → (q < w.allocated) × (lookup r.id (erase s.id w.by_id) ≡ some q)
remove_known w p s v at q r e =
    let x = erase_less p q w.store e in
    let k = v.known q r x.0 in
    let other : r.id ≢ s.id =
      λ same. x.1 (found (sym k.1 ∙ ap (λ (i : ℕ). lookup i w.by_id) same ∙ (v.known p s at).1)) in
    (k.0, lookup-erase_other s.id r.id w.by_id other ∙ k.1)

-- A removal returns.
pub record Removes (w : Sessions) (id p : ℕ) : Type 0 where
  pub after : Sessions
  pub returns : remove w id p ≡ some after
  pub valid : IsValid after
  pub by_id_is : after.by_id ≡ erase id w.by_id
  pub store_is : after.store ≡ erase p w.store
  pub same_next : after.next_id ≡ w.next_id

pub remove-Removes :
    (w : Sessions) (p : ℕ) (s : Session) → IsValid w → lookup p w.store ≡ some s → Removes w s.id p
unfolding remove
remove-Removes w p s v at = record {
  after = record w {
    by_peer = if has_peer s.options then erase s.peer_id w.by_peer else w.by_peer;
    by_address = if has_address s.options then erase s.address w.by_address else w.by_address;
    store = erase p w.store;
    by_id = erase s.id w.by_id;
  };
  returns = rw at refl;
  valid = record {
    small = v.small;
    ids =
        erase-IsSound (IdKey w.next_id) w.by_id w.store (erase s.id w.by_id) p v.ids
          (λ k q x. (erase_less s.id k w.by_id x).0)
          (λ k x.
            let y = erase_less s.id k w.by_id x in
            let h = v.ids k p y.0 in
            y.1 (sym h.holds.0 ∙ ap (λ (z : Session). z.id) (found (sym h.stored ∙ at))));
    peers =
        erase_if-IsSound PeerKey w.by_peer w.store (has_peer s.options) s.peer_id p s v.peers at
          (λ k x. (sym x.0, x.1));
    addresses =
        erase_if-IsSound AddressKey w.by_address w.store (has_address s.options) s.address p s
          v.addresses at (λ k x. (sym x.0, x.1));
    known = remove_known w p s v at;
    ordered = erase-IsOrdered s.id w.by_id v.ordered;
  };
  by_id_is = refl;
  store_is = refl;
  same_next = refl;
}
