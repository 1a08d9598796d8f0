-- ===== src/Base/Table.antt =====
-- A `std::map` with numbers for keys: the list of its pairs in the order of the keys.
use Prim.Native.Nat.{ℕ, ◌<◌}
use mathlib.Core.Path.{◌≡◌, refl, sym, ap, ◌∙◌}
use mathlib.Core.Logic.{◌≢◌, inl, inr}
use mathlib.Core.Bool.{true, false}
use mathlib.Core.List.{List, [], ◌∷◌}
use mathlib.Core.Option.{Option, none, some}
use native.Mathlib.Omega.{arith}
use mona_server.Base.Tests.{ltb, ◌==◌, if◌then◌else◌, Bool-cases}
use mona_server.Base.Lists.{All}

module _ {ℓ} {A : Type ℓ} where
  -- `find`.
  abbrev pub lookup : ℕ → List (ℕ × A) → Option A
  lookup k [] = none
  lookup k ((j, a) ∷ t) = if j == k then some a else lookup k t

  -- `m[k] = a`.
  abbrev pub insert : ℕ → A → List (ℕ × A) → List (ℕ × A)
  insert k a [] = (k, a) ∷ []
  insert k a ((j, b) ∷ t) =
      let rest = insert k a t in
      if ltb k j then (k, a) ∷ (j, b) ∷ t else if j == k then (k, a) ∷ t else (j, b) ∷ rest

  -- `erase(k)`.
  abbrev pub erase : ℕ → List (ℕ × A) → List (ℕ × A)
  erase k [] = []
  erase k ((j, b) ∷ t) = let rest = erase k t in if j == k then rest else (j, b) ∷ rest

  abbrev pub IsAbove : ℕ → List (ℕ × A) → Type 0
  IsAbove k = All (λ (e : ℕ × A). k < e.0)

  -- The keys increase.
  abbrev pub IsOrdered : List (ℕ × A) → Type 0
  IsOrdered [] = Unit
  IsOrdered ((j, b) ∷ t) = IsAbove j t × IsOrdered t

  pub lookup-insert : (k : ℕ) (a : A) (t : List (ℕ × A)) → lookup k (insert k a t) ≡ some a
  lookup-insert k a [] = ground arith
  lookup-insert k a ((j, b) ∷ t) = ground (arith, lookup-insert k a t)

  pub lookup-insert_other :
      (k j : ℕ) (a : A) (t : List (ℕ × A)) → j ≢ k → lookup j (insert k a t) ≡ lookup j t
  lookup-insert_other k j a [] h = ground arith
  lookup-insert_other k j a ((i, b) ∷ t) h = ground (arith, lookup-insert_other k j a t h)

  pub lookup-erase : (k : ℕ) (t : List (ℕ × A)) → lookup k (erase k t) ≡ none
  lookup-erase k [] = refl
  lookup-erase k ((j, b) ∷ t) = ground (arith, lookup-erase k t)

  pub lookup-erase_other : (k j : ℕ) (t : List (ℕ × A)) → j ≢ k → lookup j (erase k t) ≡ lookup j t
  lookup-erase_other k j [] h = refl
  lookup-erase_other k j ((i, b) ∷ t) h = ground (arith, lookup-erase_other k j t h)

  insert-IsAbove :
      (i k : ℕ) (a : A) (t : List (ℕ × A)) → i < k → IsAbove i t → IsAbove i (insert k a t)
  insert-IsAbove i k a [] h v = (h, v)
  insert-IsAbove i k a ((j, b) ∷ t) h v = ground (arith, insert-IsAbove i k a t h v.1)

  erase-IsAbove : (i k : ℕ) (t : List (ℕ × A)) → IsAbove i t → IsAbove i (erase k t)
  erase-IsAbove i k [] v = v
  erase-IsAbove i k ((j, b) ∷ t) v = ground (arith, erase-IsAbove i k t v.1)

  IsAbove-more : (i k : ℕ) (t : List (ℕ × A)) → i < k → IsAbove k t → IsAbove i t
  IsAbove-more i k [] h v = v
  IsAbove-more i k ((j, b) ∷ t) h v = (omega (arith, v.0), IsAbove-more i k t h v.1)

  pub insert-IsOrdered : (k : ℕ) (a : A) (t : List (ℕ × A)) → IsOrdered t → IsOrdered (insert k a t)
  insert-IsOrdered k a [] v = (tt, v)
  insert-IsOrdered k a ((j, b) ∷ t) v = elim (Bool-cases (ltb k j)) [
    | inl below ↦ rw below ((ground arith, IsAbove-more k j t (ground arith) v.0), v)
    | inr high ↦ elim (Bool-cases (j == k)) [
      | inl same ↦ let e : j ≡ k = ground arith in rw (high, same, sym e) v
      | inr other ↦
          rw (high, other) (insert-IsAbove j k a t (ground arith) v.0, insert-IsOrdered k a t v.1)
    ]
  ]

  pub erase-IsOrdered : (k : ℕ) (t : List (ℕ × A)) → IsOrdered t → IsOrdered (erase k t)
  erase-IsOrdered k [] v = v
  erase-IsOrdered k ((j, b) ∷ t) v = elim (Bool-cases (j == k)) [
    | inl same ↦ rw same (erase-IsOrdered k t v.1)
    | inr other ↦ rw other (erase-IsAbove j k t v.0, erase-IsOrdered k t v.1)
  ]

  -- Each pair is what its key gives.
  abbrev pub IsListedIn : List (ℕ × A) → List (ℕ × A) → Type ℓ
  IsListedIn m = All (λ (e : ℕ × A). lookup e.0 m ≡ some e.1)

  listed-cons :
      (j : ℕ) (b : A) (m t : List (ℕ × A))
      → IsAbove j t
      → IsListedIn m t
      → IsListedIn ((j, b) ∷ m) t
  listed-cons j b m [] v l = l
  listed-cons j b m ((i, a) ∷ t) v l =
      let e : (j == i) ≡ false = ground (arith, v.0) in (rw e l.0, listed-cons j b m t v.1 l.1)

  pub ordered_listed : (t : List (ℕ × A)) → IsOrdered t → IsListedIn t t
  ordered_listed [] v = tt
  ordered_listed ((j, b) ∷ t) v =
      let e : (j == j) ≡ true = ground arith in
      (rw e refl, listed-cons j b t t v.0 (ordered_listed t v.1))

  pub lookup-insert_at :
      (k j : ℕ) (a : A) (t : List (ℕ × A))
      → lookup j (insert k a t) ≡ (if j == k then some a else lookup j t)
  lookup-insert_at k j a t = elim (Bool-cases (j == k)) [
    | inl e ↦
        let j' : j ≡ k = ground arith in
        rw e (ap (λ (i : ℕ). lookup i (insert k a t)) j' ∙ lookup-insert k a t)
    | inr e ↦ rw e (lookup-insert_other k j a t (ground arith))
  ]

  pub lookup-erase_at :
      (k j : ℕ) (t : List (ℕ × A)) → lookup j (erase k t) ≡ (if j == k then none else lookup j t)
  lookup-erase_at k j t = elim (Bool-cases (j == k)) [
    | inl e ↦
        let j' : j ≡ k = ground arith in
        rw e (ap (λ (i : ℕ). lookup i (erase k t)) j' ∙ lookup-erase k t)
    | inr e ↦ rw e (lookup-erase_other k j t (ground arith))
  ]
