-- ===== src/Rtmp/Written.antt =====
-- What `write` writes once the flag of the header is known, and the next `pack` fills in.
use mona_server.Base.{
  ℕ, ◌+◌, ◌-◌, ◌*◌, ◌^◌, ◌<◌, ◌≤◌, ◌≡◌, refl, sym, ap, ◌∙◌, true, false, List, [], ◌∷◌, ◌++◌, some,
  ltb, if◌then◌else◌, if_true, length, length-append, append_assoc, bit_or, arith,
}
use mona_server.Binary.{store, flip24}
use mona_server.Rtmp.{Channel, Sender, pack, header_bytes, body_bytes, write_flagged}
use mona_server.Rtmp.Headers.{pack-filled}

pack_none : (s : Sender) (c : Channel) → s.size_pos ≡ 0 → pack s c ≡ (s, c)
unfolding pack
pack_none s c e = rw e refl

abbrev made_with : List ℕ → ℕ → ℕ → Sender
made_with packet size_pos head = record { packet = packet; size_pos = size_pos; head_size = head }

-- What a written message is: the bytes behind the earlier ones, and the channel.
pub record Written (s : Sender) (p : Sender × Channel) (bytes : List ℕ) (c : Channel) : Type 0 where
  pub packet_is : p.0.packet ≡ s.packet ++ bytes
  pub channel_is : p.1 ≡ c

module _ (id stream type absolute time : ℕ) (body : List ℕ) (c : Channel) (s : Sender)
    (packed : s.size_pos ≡ 0) (fits : length s.packet + 20 + length body < 2 ^ 32) where
  abbrev pub sent : Channel
  sent = record c { time = time; absolute_time = absolute; stream_id = stream; type = type }

  abbrev first_byte : ℕ → ℕ
  first_byte flag = bit_or (flag * 2 ^ 6) id

  abbrev front : ℕ → List ℕ
  front flag = s.packet ++ first_byte flag ∷ []

  abbrev head_of : ℕ → ℕ
  head_of flag =
      if ltb time 0xffffff
      then 12 - 4 * flag
      else if ltb 0 (12 - 4 * flag)
      then 12 - 4 * flag + 4
      else 12 - 4 * flag

  abbrev message : ℕ → Sender × Channel
  message flag = write_flagged flag time id stream type absolute (some body) c s

  abbrev pub packed_message : ℕ → Sender × Channel
  packed_message flag = pack (message flag).0 (message flag).1

  message-flag :
      (flag head : ℕ)
      → head_of flag ≡ head
      → message flag ≡ (
        record {
          packet = front flag ++ (header_bytes (12 - 4 * flag) stream type time ++ body);
          size_pos = if ltb 4 head then length (front flag) + 3 else 0;
          head_size = head;
        },
        sent,
      )
  unfolding write_flagged body_bytes
  message-flag flag head e = rw (pack_none s sent packed, e) refl

  -- A header without a size.
  pub short_message :
      (flag head : ℕ)
      → head_of flag ≡ head
      → ltb 4 head ≡ false
      → Written s
          (packed_message flag)
          (first_byte flag ∷ (header_bytes (12 - 4 * flag) stream type time ++ body))
          sent
  short_message flag head e low =
      let bytes = header_bytes (12 - 4 * flag) stream type time ++ body in
      let made : Sender = record {
        packet = front flag ++ bytes;
        size_pos = if ltb 4 head then length (front flag) + 3 else 0;
        head_size = head;
      } in
      let m = message-flag flag head e in
      let p : packed_message flag ≡ (made, sent) =
        ap (λ (q : Sender × Channel). pack q.0 q.1) m ∙ pack_none made sent (rw low refl) in
      record {
        packet_is =
            ap (λ (q : Sender × Channel). q.0.packet) p
            ∙ append_assoc s.packet (first_byte flag ∷ []) bytes;
        channel_is = ap (λ (q : Sender × Channel). q.1) p;
      }

  -- A header with a size, and what follows the type.
  pub long_message :
      (flag head : ℕ) (stamp mid : List ℕ)
      → head_of flag ≡ head
      → ltb 4 head ≡ true
      → length stamp ≡ 3
      → head ≡ 8 + length mid
      → length mid ≤ 8
      → header_bytes (12 - 4 * flag) stream type time ≡ stamp ++ (0 ∷ 0 ∷ 0 ∷ type ∷ mid)
      → Written s
          (packed_message flag)
          (first_byte flag ∷ (stamp ++ (store 3 (flip24 (length body)) ++ type ∷ (mid ++ body))))
          (record sent { body_size = length body })
  long_message flag head stamp mid e high three head_is small bytes_are =
      let place : List ℕ = 0 ∷ 0 ∷ 0 ∷ [] in
      let behind : List ℕ = type ∷ (mid ++ body) in
      let made : Sender = record {
        packet = (front flag ++ stamp) ++ (place ++ behind);
        size_pos = length (front flag) + 3;
        head_size = head;
      } in
      let filled =
        pack-filled (front flag) stamp mid body type head sent three head_is
          (omega (arith, fits, small, length-append s.packet (first_byte flag ∷ []))) in
      let m : message flag ≡ (made, sent) =
        message-flag flag head e
        ∙ ap
            (λ (n : ℕ). (
              made_with (front flag ++ (header_bytes (12 - 4 * flag) stream type time ++ body)) n
                  head,
              sent,
            ))
            (if_true (ltb 4 head) (length (front flag) + 3) 0 high)
        ∙ ap (λ (xs : List ℕ). (made_with xs (length (front flag) + 3) head, sent))
            (ap (λ (h : List ℕ). front flag ++ (h ++ body)) bytes_are
              ∙ ap (λ (t : List ℕ). front flag ++ t) (append_assoc stamp (place ++ type ∷ mid) body)
              ∙ sym (append_assoc (front flag) stamp (place ++ behind))) in
      let p = ap (λ (q : Sender × Channel). pack q.0 q.1) m ∙ filled in
      record {
        packet_is =
            ap (λ (q : Sender × Channel). q.0.packet) p
            ∙ append_assoc (front flag ++ stamp) (store 3 (flip24 (length body))) behind
            ∙ append_assoc (front flag) stamp (store 3 (flip24 (length body)) ++ behind)
            ∙ append_assoc s.packet (first_byte flag ∷ [])
                (stamp ++ (store 3 (flip24 (length body)) ++ behind));
        channel_is = ap (λ (q : Sender × Channel). q.1) p;
      }
