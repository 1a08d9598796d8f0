-- ===== src/Sessions/Managed.antt =====
-- The loop of `manage`: who stays.
use mona_server.Base.{
  ℕ, ◌≡◌, ◌≢◌, refl, sym, ◌∙◌, ap, subst, Bool, true, false, List, [], ◌∷◌, Option, none, some,
  if◌then◌else◌, if_true, if_false, ◌>>=◌, lookup, insert, erase, lookup-insert,
  lookup-insert_other, lookup-erase, lookup-erase_other, IsOrdered, IsAbove, IsListedIn,
  ordered_listed, arith, ◌==◌, Bool-cases, Option-cases, inl, inr,
}
use mona_server.Sessions.{
  Session, Sessions, Behaviour, kill, tick, remove, manage_one, manage_from, manage,
}
use mona_server.Sessions.Sound.{found}
use mona_server.Sessions.Valid.{IsValid, changed-IsValid, remove-Removes}

-- The session that an id finds.
unfoldable pub view : Sessions → ℕ → Option (ℕ × Session)
view w id = do p ← lookup id w.by_id; s ← lookup p w.store; some (p, s)

-- What `manage` leaves of a session.
unfoldable pub survivor : Behaviour → ℕ × Session → Option (ℕ × Session)
survivor b (p, s) = if (tick b s).died then none else some (p, tick b s)

-- A tick keeps what the tables stand on.
pub record SameKeys (s t : Session) : Type 0 where
  pub id : t.id ≡ s.id
  pub options : t.options ≡ s.options
  pub peer_id : t.peer_id ≡ s.peer_id
  pub address : t.address ≡ s.address

pub kill-SameKeys : (s : Session) → SameKeys s (kill s)
unfolding kill
kill-SameKeys s = elim (Bool-cases s.died) [
  | inl e ↦ rw e (record { id = refl; options = refl; peer_id = refl; address = refl })
  | inr e ↦ rw e (record { id = refl; options = refl; peer_id = refl; address = refl })
]

if-SameKeys :
    (b : Bool) (r s t : Session) → SameKeys r s → SameKeys r t → SameKeys r (if b then s else t)
if-SameKeys true r s t h k = h
if-SameKeys false r s t h k = k

SameKeys-trans : (r s t : Session) → SameKeys r s → SameKeys s t → SameKeys r t
SameKeys-trans r s t h k = record {
  id = k.id ∙ h.id;
  options = k.options ∙ h.options;
  peer_id = k.peer_id ∙ h.peer_id;
  address = k.address ∙ h.address;
}

self : (s : Session) → SameKeys s s
self s = record { id = refl; options = refl; peer_id = refl; address = refl }

tick-SameKeys : (b : Behaviour) (s : Session) → SameKeys s (tick b s)
unfolding tick
tick-SameKeys b s =
    let managed = if s.died then s else if b.manage_kills s then kill s else s in
    let k : SameKeys s managed =
      if-SameKeys s.died s s (if b.manage_kills s then kill s else s) (self s)
        (if-SameKeys (b.manage_kills s) s (kill s) s (kill-SameKeys s) (self s)) in
    let flushed = if b.flush_kills managed then kill managed else managed in
    if-SameKeys managed.died s managed flushed k (
      if-SameKeys (b.flush_kills managed) s (kill managed) managed
        (SameKeys-trans s managed (kill managed) k (kill-SameKeys managed)) k)

-- One turn: the entry of the id becomes its survivor, the others stay.
record Turns (b : Behaviour) (w : Sessions) (id p : ℕ) : Type 0 where
  after : Sessions
  returns : manage_one b w id p ≡ some after
  valid : IsValid after
  here : view after id ≡ view w id >>= survivor b
  beside : (k : ℕ) → k ≢ id → (view after k ≡ view w k) × (lookup k after.by_id ≡ lookup k w.by_id)
  same_next : after.next_id ≡ w.next_id

-- Two ids find two sessions.
view_beside :
    (w w' : Sessions) (id p : ℕ) (k : ℕ)
    → IsValid w
    → lookup id w.by_id ≡ some p
    → k ≢ id
    → lookup k w'.by_id ≡ lookup k w.by_id
    → ((q : ℕ) → q ≢ p → lookup q w'.store ≡ lookup q w.store)
    → view w' k ≡ view w k
unfolding view
view_beside w w' id p k v at other same stores = elim (Option-cases (lookup k w.by_id)) [
  | inl e ↦ rw (same, e) refl
  | inr (q, e) ↦
      let h = v.ids k q e in
      let i = v.ids id p at in
      let differs : q ≢ p = λ eq. other (
        sym h.holds.0
        ∙ ap (λ (z : Session). z.id)
            (found (sym h.stored ∙ ap (λ (x : ℕ). lookup x w.store) eq ∙ i.stored))
        ∙ i.holds.0) in
      rw (same, e, stores q differs) refl
]

turn :
    (b : Behaviour) (w : Sessions) (id p : ℕ)
    → IsValid w
    → lookup id w.by_id ≡ some p
    → Turns b w id p
unfolding manage_one survivor view
turn b w id p v at =
    let h = v.ids id p at in
    let s = h.target in
    let t = tick b s in
    let k = tick-SameKeys b s in
    let w' : Sessions = record w { store = insert p t w.store } in
    let v' = changed-IsValid w p s t v h.stored k.id k.options k.peer_id k.address in
    elim (Bool-cases t.died) [
      | inl e ↦
          let r = remove-Removes w' p t v' (lookup-insert p t w.store) in
          let gone : t.id ≡ id = k.id ∙ h.holds.0 in
          let ids : (j : ℕ) → j ≢ id → lookup j r.after.by_id ≡ lookup j w.by_id = λ j other.
            ap (lookup j) (r.by_id_is ∙ ap (λ (i : ℕ). erase i w.by_id) gone)
            ∙ lookup-erase_other id j w.by_id other in
          let left : lookup id r.after.by_id ≡ none =
            ap (lookup id) (r.by_id_is ∙ ap (λ (i : ℕ). erase i w.by_id) gone)
            ∙ lookup-erase id w.by_id in
          record {
            after = r.after;
            returns = rw h.stored (
                if_true t.died (remove w' id p) (some w') e
                ∙ ap (λ (i : ℕ). remove w' i p) (sym gone)
                ∙ r.returns);
            valid = r.valid;
            here = rw (at, h.stored, left) (sym (if_true t.died none (some (p, t)) e));
            beside = λ j other. (
              view_beside w r.after id p j v at other (ids j other) (λ q differs.
                  ap (lookup q) r.store_is
                  ∙ lookup-erase_other p q (insert p t w.store) differs
                  ∙ lookup-insert_other p q t w.store differs),
              ids j other,
            );
            same_next = r.same_next;
          }
      | inr e ↦ record {
        after = w';
        returns = rw h.stored (if_false t.died (remove w' id p) (some w') e);
        valid = v';
        here =
            rw (at, h.stored, lookup-insert p t w.store)
              (sym (if_false t.died none (some (p, t)) e));
        beside = λ j other. (
          view_beside w w' id p j v at other refl
              (λ q differs. lookup-insert_other p q t w.store differs),
          refl,
        );
        same_next = refl;
      }
    ]

-- What `manage` does from a list of entries on.
record Sweeps (b : Behaviour) (w : Sessions) (rest : List (ℕ × ℕ)) (result : Option Sessions)
    : Type 0 where
  after : Sessions
  returns : result ≡ some after
  valid : IsValid after
  listed : (k p : ℕ) → lookup k rest ≡ some p → view after k ≡ view w k >>= survivor b
  unlisted : (k : ℕ) → lookup k rest ≡ none → view after k ≡ view w k
  same_next : after.next_id ≡ w.next_id

listed_beside :
    (t t' rest : List (ℕ × ℕ)) (id : ℕ)
    → IsAbove id rest
    → ((k : ℕ) → k ≢ id → lookup k t' ≡ lookup k t)
    → IsListedIn t rest
    → IsListedIn t' rest
listed_beside t t' [] id above same l = l
listed_beside t t' ((j, q) ∷ rest) id above same l =
    (same j (omega (arith, above.0)) ∙ l.0, listed_beside t t' rest id above.1 same l.1)

above_none : (id : ℕ) (rest : List (ℕ × ℕ)) → IsAbove id rest → lookup id rest ≡ none
above_none id [] above = refl
above_none id ((j, q) ∷ rest) above = ground (arith, above.0, above_none id rest above.1)

sweep :
    (b : Behaviour) (rest : List (ℕ × ℕ)) (w : Sessions)
    → IsValid w
    → IsOrdered rest
    → IsListedIn w.by_id rest
    → Sweeps b w rest (manage_from b rest w)
unfolding manage_from
sweep b [] w v o l = record {
  after = w;
  returns = refl;
  valid = v;
  listed = λ k p e. absurd cc;
  unlisted = λ k e. refl;
  same_next = refl;
}
sweep b ((id, p) ∷ rest) w v o l =
    let first = turn b w id p v l.0 in
    let next = sweep b rest first.after first.valid o.1 (
      listed_beside w.by_id first.after.by_id rest id o.0 (λ k other. (first.beside k other).1)
        l.1) in
    record {
      after = next.after;
      returns = rw first.returns next.returns;
      valid = next.valid;
      listed = λ k q e. elim (Bool-cases (id == k)) [
        | inl same ↦
            let k' : id ≡ k = ground arith in
            subst (λ (i : ℕ). view next.after i ≡ view w i >>= survivor b) k'
              (next.unlisted id (above_none id rest o.0) ∙ first.here)
        | inr other ↦
            next.listed k q (ground (arith, e, other))
            ∙ ap (λ (x : Option (ℕ × Session)). x >>= survivor b) (first.beside k (ground arith)).0
      ];
      unlisted = λ k e.
          let other : (id == k) ≡ false = ground (arith, e) in
          next.unlisted k (ground (arith, e, other)) ∙ (first.beside k (ground arith)).0;
      same_next = next.same_next ∙ first.same_next;
    }

-- `manage` runs.
pub record Manages (b : Behaviour) (w : Sessions) : Type 0 where
  pub after : Sessions
  pub returns : manage b w ≡ some after
  pub valid : IsValid after
  pub survivors : (id : ℕ) → view after id ≡ view w id >>= survivor b
  pub same_next : after.next_id ≡ w.next_id

-- On valid tables `manage` returns valid tables. An id finds the session that it found before,
-- after its virtual `manage` and `flush`, if neither of them, nor a call before, has killed it;
-- otherwise it finds none. The next id stays.
pub manage-Manages : (b : Behaviour) (w : Sessions) → IsValid w → Manages b w
unfolding manage view
manage-Manages b w v =
    let s = sweep b w.by_id w v v.ordered (ordered_listed w.by_id v.ordered) in
    record {
      after = s.after;
      returns = s.returns;
      valid = s.valid;
      survivors = λ id. elim (Option-cases (lookup id w.by_id)) [
        | inl e ↦ s.unlisted id e ∙ rw e refl
        | inr (p, e) ↦ s.listed id p e
      ];
      same_next = s.same_next;
    }
