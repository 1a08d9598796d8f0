-- ===== src/Sessions/Sound.antt =====
-- Tables that point into the store of sessions, when either changes.
use mona_server.Base.{
  ℕ, ◌≡◌, ◌≢◌, ◌⊎◌, Bool, true, if◌then◌else◌, sym, ◌∙◌, ap, subst, List, none, some, lookup,
  insert, erase, lookup-insert, lookup-insert_other, lookup-erase, lookup-erase_other, arith, ◌==◌,
  Bool-cases, inl, inr,
}
use mona_server.Sessions.{Session}

-- The session that a pointer points to.
pub record Holds (store : List (ℕ × Session)) (p : ℕ) (P : Session → Type 0) : Type 0 where
  pub target : Session
  pub stored : lookup p store ≡ some target
  pub holds : P target

-- Every pointer of a table points to a session that has its key.
abbrev pub IsSound : (ℕ → Session → Type 0) → List (ℕ × ℕ) → List (ℕ × Session) → Type 0
IsSound Key t store = (k p : ℕ) → lookup k t ≡ some p → Holds store p (Key k)

-- What is found twice is the same.
pub found {ℓ} : {A : Type ℓ} {a b : A} → some a ≡ some b → a ≡ b
found e = cc

pub apart {ℓ} :
    {A : Type ℓ} (store : List (ℕ × A)) (p q : ℕ) {s : A}
    → none ≡ lookup p store
    → lookup q store ≡ some s
    → q ≢ p
apart store p q fresh e same =
    let clash = fresh ∙ ap (λ (i : ℕ). lookup i store) (sym same) ∙ e in absurd cc

-- What an erasure leaves was there.
pub erase_less {ℓ} :
    {A : Type ℓ} (j k : ℕ) (t : List (ℕ × A)) {a : A}
    → lookup k (erase j t) ≡ some a
    → (lookup k t ≡ some a) × (k ≢ j)
erase_less j k t e = elim (Bool-cases (k == j)) [
  | inl same ↦
      let k' : k ≡ j = ground arith in
      let clash = sym (lookup-erase j t) ∙ ap (λ (i : ℕ). lookup i (erase j t)) (sym k') ∙ e in
      absurd cc
  | inr other ↦ (sym (lookup-erase_other j k t (ground arith)) ∙ e, ground arith)
]

-- What an insertion gives is new, or was there.
pub insert_cases {ℓ} :
    {A : Type ℓ} (j k : ℕ) (b : A) (t : List (ℕ × A)) {a : A}
    → lookup k (insert j b t) ≡ some a
    → ((k ≡ j) × (b ≡ a)) ⊎ ((lookup k t ≡ some a) × (k ≢ j))
insert_cases j k b t e = elim (Bool-cases (k == j)) [
  | inl same ↦
      let k' : k ≡ j = ground arith in
      inl (
        k',
        found (sym (lookup-insert j b t) ∙ ap (λ (i : ℕ). lookup i (insert j b t)) (sym k') ∙ e),
      )
  | inr other ↦ inr (sym (lookup-insert_other j k b t (ground arith)) ∙ e, ground arith)
]

module _ (Key : ℕ → Session → Type 0) (t : List (ℕ × ℕ)) (store : List (ℕ × Session)) where
  -- A new session, with and without an entry.
  pub stored_beside :
      (p : ℕ) (s : Session)
      → IsSound Key t store
      → lookup p store ≡ none
      → IsSound Key t (insert p s store)
  stored_beside p s v fresh k q e =
      let h = v k q e in
      let other : q ≢ p = apart store p q (sym fresh) h.stored in
      record {
        target = h.target;
        stored = lookup-insert_other p q s store other ∙ h.stored;
        holds = h.holds;
      }

  pub insert-IsSound :
      (j p : ℕ) (s : Session)
      → IsSound Key t store
      → lookup p store ≡ none
      → Key j s
      → IsSound Key (insert j p t) (insert p s store)
  insert-IsSound j p s v fresh key k q e = elim (Bool-cases (k == j)) [
    | inl same ↦
        let key' : k ≡ j = ground arith in
        let here : q ≡ p =
          found (sym e ∙ ap (λ (i : ℕ). lookup i (insert j p t)) key' ∙ lookup-insert j p t) in
        record {
          target = s;
          stored = ap (λ (i : ℕ). lookup i (insert p s store)) here ∙ lookup-insert p s store;
          holds = subst (λ (i : ℕ). Key i s) (sym key') key;
        }
    | inr differs ↦
        stored_beside p s v fresh k q (sym (lookup-insert_other j k p t (ground arith)) ∙ e)
  ]

  -- A session that changes and keeps its keys.
  pub insert_same :
      (p : ℕ) (s s' : Session)
      → IsSound Key t store
      → lookup p store ≡ some s
      → ((k : ℕ) → Key k s → Key k s')
      → IsSound Key t (insert p s' store)
  insert_same p s s' v at keep k q e =
      let h = v k q e in
      elim (Bool-cases (q == p)) [
        | inl here ↦
            let q' : q ≡ p = ground arith in
            record {
              target = s';
              stored = ap (λ (i : ℕ). lookup i (insert p s' store)) q' ∙ lookup-insert p s' store;
              holds = keep k (
                  subst (Key k) (found (sym h.stored ∙ ap (λ (i : ℕ). lookup i store) q' ∙ at))
                    h.holds);
            }
        | inr other ↦ record {
          target = h.target;
          stored = lookup-insert_other p q s' store (ground arith) ∙ h.stored;
          holds = h.holds;
        }
      ]

  -- A session that goes, with its entries.
  pub erase-IsSound :
      (t' : List (ℕ × ℕ)) (p : ℕ)
      → IsSound Key t store
      → ((k q : ℕ) → lookup k t' ≡ some q → lookup k t ≡ some q)
      → ((k : ℕ) → lookup k t' ≢ some p)
      → IsSound Key t' (erase p store)
  erase-IsSound t' p v sub gone k q e =
      let h = v k q (sub k q e) in
      let other : q ≢ p = λ same. gone k (e ∙ ap some same) in
      record {
        target = h.target;
        stored = lookup-erase_other p q store other ∙ h.stored;
        holds = h.holds;
      }

  -- The same for the erasure of the one key that can lead to it, where a flag says there is one.
  pub erase_if-IsSound :
      (flag : Bool) (j p : ℕ) (s : Session)
      → IsSound Key t store
      → lookup p store ≡ some s
      → ((k : ℕ) → Key k s → (k ≡ j) × (flag ≡ true))
      → IsSound Key (if flag then erase j t else t) (erase p store)
  erase_if-IsSound flag j p s v at only = elim (Bool-cases flag) [
    | inl e ↦ rw e (
        erase-IsSound (erase j t) p v (λ k q x. (erase_less j k t x).0)
          (λ k x. (erase_less j k t x).1 (of k (erase_less j k t x).0).0))
    | inr e ↦
        rw e (erase-IsSound t p v (λ k q x. x) (λ k x. let clash = sym e ∙ (of k x).1 in absurd cc))
  ]
    where
      of : (k : ℕ) → lookup k t ≡ some p → (k ≡ j) × (flag ≡ true)
      of k x = let h = v k p x in only k (subst (Key k) (found (sym h.stored ∙ at)) h.holds)
