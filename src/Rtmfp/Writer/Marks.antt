-- ===== src/Rtmfp/Writer/Marks.antt =====
-- The flags and the bytes of the messages that `RTMFPWriter` writes for fragments.
use mona_server.Base.{
  ℕ, ◌≤◌, ◌≡◌, refl, Bool, true, false, ◌&&◌, List, [], ◌∷◌, ◌++◌, ltb, ◌==◌, if◌then◌else◌, length,
  bit_or, append-nil, arith,
}
use mona_server.Rtmfp.Fragment.{
  Field, Sent, long_value, byte, text8, raw_bytes, value, with_beforepart, with_afterpart,
  abandonment, message_end,
}
use mona_server.Rtmfp.Writer.{
  RtmfpWriter, is_closed, signature_fields, fragment_flags, fragment_fields, place_flags,
}

-- What a receiver takes from the fields of a message: the flags, and the bytes at the end.
abbrev pub flags_of : List Field → ℕ
flags_of [] = 0
flags_of (byte flags ∷ rest) = flags
flags_of (field ∷ rest) = 0

abbrev pub bytes_of : List Field → List ℕ
bytes_of [] = []
bytes_of (raw_bytes bytes ∷ rest) = bytes ++ bytes_of rest
bytes_of (long_value v ∷ rest) = bytes_of rest
bytes_of (value v ∷ rest) = bytes_of rest
bytes_of (byte v ∷ rest) = bytes_of rest
bytes_of (text8 t ∷ rest) = bytes_of rest

abbrev pub all_flags : Bool → Bool → Bool → Bool → ℕ
all_flags p a h e =
    let placed = bit_or (if p then 0x20 else 0) (if a then 0x10 else 0) in
    let with_header = if h then bit_or placed 0x80 else placed in
    if e then bit_or with_header 0x01 else with_header

pub all_flags-lem :
    (p a h e : Bool)
    → (abandonment (all_flags p a h e) ≡ false)
      × (with_beforepart (all_flags p a h e) ≡ p)
      × (with_afterpart (all_flags p a h e) ≡ a)
all_flags-lem true true true true = (refl, refl, refl)
all_flags-lem true true true false = (refl, refl, refl)
all_flags-lem true true false true = (refl, refl, refl)
all_flags-lem true true false false = (refl, refl, refl)
all_flags-lem true false true true = (refl, refl, refl)
all_flags-lem true false true false = (refl, refl, refl)
all_flags-lem true false false true = (refl, refl, refl)
all_flags-lem true false false false = (refl, refl, refl)
all_flags-lem false true true true = (refl, refl, refl)
all_flags-lem false true true false = (refl, refl, refl)
all_flags-lem false true false true = (refl, refl, refl)
all_flags-lem false true false false = (refl, refl, refl)
all_flags-lem false false true true = (refl, refl, refl)
all_flags-lem false false true false = (refl, refl, refl)
all_flags-lem false false false true = (refl, refl, refl)
all_flags-lem false false false false = (refl, refl, refl)

pub all_flags-end : (p a h e : Bool) → message_end (all_flags p a h e) ≡ e
all_flags-end true true true true = refl
all_flags-end true true true false = refl
all_flags-end true true false true = refl
all_flags-end true true false false = refl
all_flags-end true false true true = refl
all_flags-end true false true false = refl
all_flags-end true false false true = refl
all_flags-end true false false false = refl
all_flags-end false true true true = refl
all_flags-end false true true false = refl
all_flags-end false true false true = refl
all_flags-end false true false false = refl
all_flags-end false false true true = refl
all_flags-end false false true false = refl
all_flags-end false false false true = refl
all_flags-end false false false false = refl

-- Whether the fragments that a writer sends end its flow.
abbrev pub ends : RtmfpWriter → Bool
ends w = is_closed w.state && (length w.messages == 1)

pub fragment_flags-eq :
    (w : RtmfpWriter) (place : ℕ) (after header : Bool) (content : List ℕ)
    → 1 ≤ length content
    → fragment_flags w (place_flags place after) header content
      ≡ all_flags (ltb 0 place) after ((w.stage_ack == 0) && header) (ends w)
unfolding fragment_flags
fragment_flags-eq w place after header content h = ground arith

pub bytes_of-fields :
    (w : RtmfpWriter) (stage flags : ℕ) (header : Bool) (content : List ℕ)
    → bytes_of (fragment_fields w stage flags header content) ≡ content
unfolding fragment_fields signature_fields
bytes_of-fields w stage flags header content = ground (arith, append-nil content)

pub flags_of-fields :
    (w : RtmfpWriter) (stage flags : ℕ) (header : Bool) (content : List ℕ)
    → flags_of (fragment_fields w stage flags header content)
      ≡ fragment_flags w flags header content
unfolding fragment_fields
flags_of-fields w stage flags header content = refl

-- The pieces of a message: the first without a part in front of it, the last without one behind.
abbrev pub IsMarked : Bool → Bool → ℕ → Type 0
IsMarked before after flags =
    (abandonment flags ≡ false) × (with_beforepart flags ≡ before) × (with_afterpart flags ≡ after)

abbrev pub AreMarked : Bool → List Sent → Type 0
AreMarked before [] = Unit {0}
AreMarked before (s ∷ []) = IsMarked before false (flags_of s.fields)
AreMarked before (s ∷ t ∷ rest) =
    IsMarked before true (flags_of s.fields) × AreMarked true (t ∷ rest)

abbrev pub all_bytes : List Sent → List ℕ
all_bytes [] = []
all_bytes (s ∷ rest) = bytes_of s.fields ++ all_bytes rest
