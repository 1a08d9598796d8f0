-- ===== src/Binary/Writer/Window.antt =====
-- What a writer on a caller's buffer does: it appends, and drops what does not fit.
use mona_server.Base.{
  ℕ, ◌+◌, ◌-◌, ◌%◌, ◌^◌, ◌≤◌, ◌<◌, ◌≡◌, refl, ap, ◌∙◌, sym, true, false, List, ◌++◌, Option, some,
  length, take, arith, length-append, length-take, take_all, take-append_right,
}
use native.Mathlib.Decide.{dec_le}
use mona_server.Buffer.Shape.{IsValid, length-contents}
use mona_server.Buffer.Resize.{resize_window}
use mona_server.Binary.Writer.{Writer, contents, overwrite, write_raw}
use mona_server.Binary.Writer.Appends.{length-overwrite, take-overwrite}

-- The room of the window is filled from the front of `bs`.
pub record Fills (w : Writer) (bs : List ℕ) (m : Option Writer) : Type 0 where
  pub after : Writer
  pub returns : m ≡ some after
  pub valid : IsValid after.buffer
  pub window : after.buffer.owned ≡ false
  pub same_capacity : after.buffer.capacity ≡ w.buffer.capacity
  pub written : contents after ≡ take w.buffer.capacity (contents w ++ bs)

-- A piece that fits, copied behind what was there.
module _ (w : Writer) (v : IsValid w.buffer) (piece : List ℕ)
    (fits : w.buffer.size + length piece ≤ w.buffer.capacity) where
  abbrev filled : Writer
  filled = record w {
    buffer = record (w.buffer) {
      size = w.buffer.size + length piece;
      bytes = overwrite w.buffer.size piece w.buffer.bytes;
    };
  }

  filled-IsValid : IsValid filled.buffer
  filled-IsValid = omega (arith, length-overwrite w.buffer.size piece w.buffer.bytes (omega arith))

  contents-filled : contents filled ≡ contents w ++ piece
  contents-filled = take-overwrite w.buffer.size piece w.buffer.bytes (omega arith)

module _ (w : Writer) (bs : List ℕ) (v : IsValid w.buffer) (own : w.buffer.owned ≡ false) where
  -- Where `resize` gets what it asks for, and where it does not.
  whole-Fills :
      w.buffer.size + length bs < 2 ^ 32
      → w.buffer.size + length bs ≤ w.buffer.capacity
      → Fills w bs (write_raw w bs)
  unfolding write_raw
  whole-Fills small fits = record {
    after = filled w v bs fits;
    returns =
        ground (arith, resize_window w.buffer ((length bs + w.buffer.size) % 2 ^ 32) true own);
    valid = filled-IsValid w v bs fits;
    window = own;
    same_capacity = refl;
    written =
        contents-filled w v bs fits
        ∙ sym (
            take_all w.buffer.capacity (contents w ++ bs)
              (omega (arith, length-append (contents w) bs, length-contents w.buffer v)));
  }

  cut-Fills :
      w.buffer.size + length bs < 2 ^ 32
      → w.buffer.capacity < w.buffer.size + length bs
      → Fills w bs (write_raw w bs)
  unfolding write_raw
  cut-Fills small long = record {
    after = filled w v front fits;
    returns =
        ground (
          arith,
          resize_window w.buffer ((length bs + w.buffer.size) % 2 ^ 32) true own,
          room,
          full,
        );
    valid = filled-IsValid w v front fits;
    window = own;
    same_capacity = refl;
    written =
        contents-filled w v front fits
        ∙ ap (λ (k : ℕ). contents w ++ take k bs) (omega (arith, length-contents w.buffer v))
        ∙ sym (
            take-append_right w.buffer.capacity (contents w) bs
              (omega (arith, length-contents w.buffer v)));
  }
    where
      front : List ℕ
      front = take (w.buffer.capacity - w.buffer.size) bs

      full : w.buffer.size + length front ≡ w.buffer.capacity
      full = omega (arith, length-take (w.buffer.capacity - w.buffer.size) bs)

      fits : w.buffer.size + length front ≤ w.buffer.capacity
      fits = omega (arith, full)

      room : take ((w.buffer.capacity + 2 ^ 32 - w.buffer.size) % 2 ^ 32) bs ≡ front
      room = ap (λ (k : ℕ). take k bs) (omega arith)

-- On a valid window that the writer does not own, where the sizes add up below 2 ^ 32: `writeRaw`
-- returns, the window stays valid and of its capacity, and it holds what was there followed by the
-- new bytes, cut at the capacity.
write_raw-Fills :
    (w : Writer) (bs : List ℕ)
    → IsValid w.buffer
    → w.buffer.owned ≡ false
    → w.buffer.size + length bs < 2 ^ 32
    → Fills w bs (write_raw w bs)
write_raw-Fills w bs v own small = elim (dec_le (w.buffer.size + length bs) w.buffer.capacity) [
  | yes fits ↦ whole-Fills w bs v own small fits
  | no long ↦ cut-Fills w bs v own small (omega arith)
]
