-- ===== src/Text/Split.antt =====
-- `Split` of fields that are joined by a separator.
use mona_server.Base.{
  ℕ, zero, suc, ◌<◌, ◌≡◌, refl, sym, ap, ◌∙◌, Bool, true, false, List, [], ◌∷◌, ◌++◌, Option, some,
  ◌>>=◌, All, length, length-append, drop, arith, append-nil,
}
use mona_server.Text.{is_in, cut, split_loop, split}

-- No character of the field is a separator.
abbrev pub IsField : List ℕ → List ℕ → Type 0
IsField separators = All (λ (c : ℕ). is_in c separators ≡ false)

-- The fields, each with the separator behind, and the last.
abbrev pub joined : ℕ → List (List ℕ) → List ℕ → List ℕ
joined separator [] last = last
joined separator (field ∷ fields) last = field ++ (separator ∷ joined separator fields last)

abbrev ends : List ℕ → List ℕ → Bool
ends separators [] = true
ends separators (c ∷ rest) = is_in c separators

cut-IsField :
    (separators field rest : List ℕ)
    → IsField separators field
    → ends separators rest ≡ true
    → cut separators (field ++ rest) ≡ (field, rest)
unfolding cut
cut-IsField separators [] [] a e = refl
cut-IsField separators [] (c ∷ rest) a e = rw e refl
cut-IsField separators (c ∷ field) rest a e = rw (cut-IsField separators field rest a.1 e, a.0) refl

-- What a round adds to the values, without options.
abbrev after_cut : ℕ → List ℕ → List ℕ × List ℕ → Option (List (List ℕ))
after_cut fuel separators r = do
  values ← split_loop fuel false false separators (drop 1 r.1)
  some (r.0 ∷ values)

split_loop-cons :
    (fuel : ℕ) (separators field rest : List ℕ)
    → IsField separators field
    → ends separators rest ≡ true
    → 0 < length (field ++ rest)
    → split_loop (suc fuel) false false separators (field ++ rest)
      ≡ after_cut fuel separators (field, rest)
unfolding split_loop
split_loop-cons fuel separators [] [] a e any = absurd (omega (arith, any))
split_loop-cons fuel separators [] (c ∷ rest) a e any =
    ap (after_cut fuel separators) (cut-IsField separators [] (c ∷ rest) a e)
split_loop-cons fuel separators (c ∷ field) rest a e any =
    ap (after_cut fuel separators) (cut-IsField separators (c ∷ field) rest a e)

split_loop-joined :
    (fuel separator : ℕ) (separators : List ℕ) (fields : List (List ℕ)) (last : List ℕ)
    → is_in separator separators ≡ true
    → All (IsField separators) fields
    → IsField separators last
    → 0 < length last
    → length (joined separator fields last) < fuel
    → split_loop fuel false false separators (joined separator fields last)
      ≡ some (fields ++ last ∷ [])
unfolding split_loop
split_loop-joined zero separator separators fields last s a al any f = absurd (omega arith)
split_loop-joined (suc zero) separator separators [] last s a al any f = absurd (omega arith)
split_loop-joined (suc (suc fuel)) separator separators [] last s a al any f =
    ap (split_loop (suc (suc fuel)) false false separators) (sym (append-nil last))
    ∙ split_loop-cons (suc fuel) separators last [] al refl
        (omega (arith, length-append {A = ℕ} last []))
split_loop-joined (suc fuel) separator separators (field ∷ fields) last s a al any f =
    let rest = joined separator fields last in
    let size = length-append field (separator ∷ rest) in
    split_loop-cons fuel separators field (separator ∷ rest) a.0 s (omega (arith, size))
    ∙ ap (λ (o : Option (List (List ℕ))). do values ← o; some (field ∷ values))
        (split_loop-joined fuel separator separators fields last s a.1 al any (omega (arith, size)))

-- Fields without separators, each but the last with a separator behind it, and the last not empty:
-- `Split` without options returns and gives these fields, in order, the empty ones too.
pub split-joined :
    (separator : ℕ) (separators : List ℕ) (fields : List (List ℕ)) (last : List ℕ)
    → is_in separator separators ≡ true
    → All (IsField separators) fields
    → IsField separators last
    → 0 < length last
    → split false false separators (joined separator fields last) ≡ some (fields ++ last ∷ [])
unfolding split
split-joined separator separators fields last s a al any =
    split_loop-joined (suc (length (joined separator fields last))) separator separators fields last
      s a al any (omega arith)
