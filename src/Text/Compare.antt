-- ===== src/Text/Compare.antt =====
-- `ICompare` finds two texts equal exactly if they are equal in lower case.
use mona_server.Base.{
  ℕ, ◌≡◌, ◌≢◌, ◌↔◌, inl, inr, refl, sym, ap, ◌∙◌, true, false, not, ◌&&◌, List, [], ◌∷◌, none, All,
  ◌==◌, map, drop, length, arith, Bool-cases,
}
use mona_server.Base.Integers.{pos, ◌-ℤ◌, pos_part, neg_part}
use mona_server.Text.{to_lower, lower, head, icompare}

-- No byte of the text is null.
abbrev pub IsText : List ℕ → Type 0
IsText = All (λ (c : ℕ). c ≢ 0)

apart : (f l : ℕ) → f ≢ l → pos f -ℤ pos l ≢ pos 0
apart f l h e = absurd (ground (arith, ap pos_part e, ap neg_part e, h))

lower_some : (c : ℕ) → c ≢ 0 → to_lower c ≢ 0
unfolding to_lower
lower_some c h e = ground (arith, h, e)

zero_to_lower : to_lower 0 ≡ 0
unfolding to_lower
zero_to_lower = refl

heads :
    (c d : ℕ) (a b : List ℕ) → map to_lower (c ∷ a) ≡ map to_lower (d ∷ b) → to_lower c ≡ to_lower d
heads c d a b e = ap head e

-- A round at the two heads, where they are equal and where they are not.
icompare_same :
    (c d : ℕ) (a b : List ℕ)
    → c ≢ 0
    → to_lower c ≡ to_lower d
    → icompare (c ∷ a) (d ∷ b) none ≡ icompare a b none
unfolding icompare
icompare_same c d a b some_c e =
    let go_on : (not (to_lower c == 0) && (to_lower c == to_lower d)) ≡ true =
      ground (arith, e, lower_some c some_c) in
    rw go_on refl

icompare_other :
    (c : ℕ) (a b : List ℕ) → to_lower c ≢ to_lower (head b) → icompare (c ∷ a) b none ≢ pos 0
unfolding icompare
icompare_other c a b h =
    let stop : (not (to_lower c == 0) && (to_lower c == to_lower (head b))) ≡ false =
      ground (arith, h) in
    rw stop (apart (to_lower c) (to_lower (head b)) h)

equal-lower :
    (a b : List ℕ)
    → IsText a
    → IsText b
    → icompare a b none ≡ pos 0
    → map to_lower a ≡ map to_lower b
unfolding icompare
equal-lower [] [] ta tb e = refl
equal-lower [] (d ∷ b) ta tb e = absurd (apart 0 (to_lower d) (λ z. lower_some d tb.0 (sym z)) e)
equal-lower (c ∷ a) [] ta tb e =
    absurd (icompare_other c a [] (λ z. lower_some c ta.0 (z ∙ zero_to_lower)) e)
equal-lower (c ∷ a) (d ∷ b) ta tb e = elim (Bool-cases (to_lower c == to_lower d)) [
  | inl same ↦
      let first : to_lower c ≡ to_lower d = ground (arith, same) in
      ap (λ (k : ℕ). k ∷ map to_lower a) first
      ∙ ap (λ (l : List ℕ). to_lower d ∷ l)
          (equal-lower a b ta.1 tb.1 (sym (icompare_same c d a b ta.0 first) ∙ e))
  | inr other ↦ absurd (icompare_other c a (d ∷ b) (λ z. ground (arith, z, other)) e)
]

lower-equal :
    (a b : List ℕ) → IsText a → map to_lower a ≡ map to_lower b → icompare a b none ≡ pos 0
unfolding icompare
lower-equal [] [] ta e = rw zero_to_lower refl
lower-equal [] (d ∷ b) ta e = absurd (omega (arith, ap length e))
lower-equal (c ∷ a) [] ta e = absurd (omega (arith, ap length e))
lower-equal (c ∷ a) (d ∷ b) ta e =
    let f = heads c d a b e in
    let go_on : (not (to_lower c == 0) && (to_lower c == to_lower d)) ≡ true =
      ground (arith, f, lower_some c ta.0) in
    rw go_on (lower-equal a b ta.1 (ap (drop 1) e))

-- Of two texts without null bytes: `ICompare` without a size is 0 exactly if they are equal in
-- lower case.
icompare-lower :
    (a b : List ℕ) → IsText a → IsText b → (icompare a b none ≡ pos 0) ↔ (lower a ≡ lower b)
unfolding lower
icompare-lower a b ta tb = (equal-lower a b ta tb, lower-equal a b ta)
