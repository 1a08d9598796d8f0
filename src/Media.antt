-- ===== src/Media.antt =====
-- What a publication sends to its listeners: MonaCore/include/Mona/MediaCodec.h,
-- MonaCore/sources/Listener.cpp and MonaCore/sources/Publication.cpp. A packet is the list of its
-- bytes from the reader's position, which every listener finds again.
pub mod Listener
pub mod Publication
mod Tests
use mona_server.Base.{ℕ, ◌/◌, ◌^◌, Bool, ◌&&◌, List, get_or, length, ltb, ◌==◌, bit_and}

-- `MediaCodec::IsKeyFrame`.
unfoldable pub is_key_frame : List ℕ → Bool
is_key_frame packet = ltb 0 (length packet) && (bit_and (get_or packet 0 0) 0xf0 == 0x10)

-- `MediaCodec::H264::IsCodecInfos`.
unfoldable pub h264_infos : List ℕ → Bool
h264_infos packet =
    (ltb 1 (length packet) && (get_or packet 0 0 == 0x17)) && (get_or packet 1 0 == 0)

-- `MediaCodec::AAC::IsCodecInfos`.
unfoldable pub aac_infos : List ℕ → Bool
aac_infos packet =
    (ltb 1 (length packet) && (get_or packet 0 0 / 2 ^ 4 == 0x0a)) && (get_or packet 1 0 == 0)
