-- ===== src/Rtmfp/Flow/Arrival.antt =====
-- `RTMFPFlow::fragmentHandler`: fragments that come early, twice, or in another order.
use mona_server.Base.{
  ℕ, ◌+◌, ◌^◌, ◌≤◌, ◌<◌, ◌≡◌, sym, ap, ◌∙◌, true, false, [], ◌∷◌, Option, some, arith, ◌>>=◌,
}
use mona_server.Binary.Reader.{Reader}
use mona_server.Rtmfp.Fragment.{Fragment, new_fragment}
use mona_server.Rtmfp.Flow.{Flow, emplace, place, fragment_handler}
use mona_server.Rtmfp.Flow.Handled.{Entries}

-- A fragment that an open flow must keep for later: behind a gap that the sender still fills.
pub record IsEarly (f : Flow) (stage delta_nack : ℕ) : Type 0 where
  pub still_open : f.completed ≡ false
  pub known : f.has_stream ≡ true
  pub behind_gap : f.stage + 1 < stage
  pub stage_fits : stage < 2 ^ 64
  pub gap_alive : stage ≤ f.stage + delta_nack

abbrev pub kept : Flow → ℕ → Reader → ℕ → Flow
kept f stage fragment flags = record f {
  fragments = emplace stage (new_fragment fragment flags) f.fragments;
}

pub fragment_handler-kept :
    (f : Flow) (stage delta_nack : ℕ) (fragment : Reader) (flags : ℕ)
    → IsEarly f stage delta_nack
    → fragment_handler f stage delta_nack fragment flags ≡ some (kept f stage fragment flags)
unfolding fragment_handler place
fragment_handler-kept f stage delta_nack fragment flags e = ground arith

emplace-swap :
    (a b : ℕ) (x y : Fragment) (l : Entries)
    → a < b
    → emplace b y (emplace a x l) ≡ emplace a x (emplace b y l)
unfolding emplace
emplace-swap a b x y [] h = ground arith
emplace-swap a b x y ((c, z) ∷ l) h = ground (arith, emplace-swap a b x y l h)

emplace-again : (a : ℕ) (x y : Fragment) (l : Entries) → emplace a y (emplace a x l) ≡ emplace a x l
unfolding emplace
emplace-again a x y [] = ground arith
emplace-again a x y ((c, z) ∷ l) = ground (arith, emplace-again a x y l)

-- Two calls of the handler, one after the other.
abbrev pub both : Flow → ℕ → ℕ → Reader → ℕ → ℕ → ℕ → Reader → ℕ → Option Flow
both f a delta_a x flags_a b delta_b y flags_b = do
  g ← fragment_handler f a delta_a x flags_a
  fragment_handler g b delta_b y flags_b

both-kept :
    (f : Flow) (a delta_a : ℕ) (x : Reader) (flags_a b delta_b : ℕ) (y : Reader) (flags_b : ℕ)
    → IsEarly f a delta_a
    → IsEarly f b delta_b
    → both f a delta_a x flags_a b delta_b y flags_b ≡ some (kept (kept f a x flags_a) b y flags_b)
both-kept f a delta_a x flags_a b delta_b y flags_b e e' =
    let e2 : IsEarly (kept f a x flags_a) b delta_b = record {
      still_open = e'.still_open;
      known = e'.known;
      behind_gap = e'.behind_gap;
      stage_fits = e'.stage_fits;
      gap_alive = e'.gap_alive;
    } in
    rw (fragment_handler-kept f a delta_a x flags_a e)
      (fragment_handler-kept (kept f a x flags_a) b delta_b y flags_b e2)

-- Two fragments that an open flow must keep for later, at different stages behind a gap that
-- `delta_nack` leaves alive, may arrive in either order: the flow after both is the same.
fragment_handler-swap :
    (f : Flow) (a delta_a : ℕ) (x : Reader) (flags_a b delta_b : ℕ) (y : Reader) (flags_b : ℕ)
    → IsEarly f a delta_a
    → IsEarly f b delta_b
    → a < b
    → both f a delta_a x flags_a b delta_b y flags_b
      ≡ both f b delta_b y flags_b a delta_a x flags_a
fragment_handler-swap f a delta_a x flags_a b delta_b y flags_b e e' h =
    both-kept f a delta_a x flags_a b delta_b y flags_b e e'
    ∙ ap (λ (l : Entries). some (record f { fragments = l }))
        (emplace-swap a b (new_fragment x flags_a) (new_fragment y flags_b) f.fragments h)
    ∙ sym (both-kept f b delta_b y flags_b a delta_a x flags_a e' e)

-- A fragment that an open flow must keep for later is kept once: a second one at its stage,
-- whatever its bytes and flags, changes nothing after the first.
fragment_handler-again :
    (f : Flow) (a delta_a : ℕ) (x : Reader) (flags_a delta_b : ℕ) (y : Reader) (flags_b : ℕ)
    → IsEarly f a delta_a
    → IsEarly f a delta_b
    → both f a delta_a x flags_a a delta_b y flags_b ≡ fragment_handler f a delta_a x flags_a
fragment_handler-again f a delta_a x flags_a delta_b y flags_b e e' =
    both-kept f a delta_a x flags_a a delta_b y flags_b e e'
    ∙ ap (λ (l : Entries). some (record f { fragments = l }))
        (emplace-again a (new_fragment x flags_a) (new_fragment y flags_b) f.fragments)
    ∙ sym (fragment_handler-kept f a delta_a x flags_a e)
