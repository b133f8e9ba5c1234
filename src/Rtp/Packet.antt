-- ===== src/Rtp/Packet.antt =====
-- The RTP packets that `rtp_packet_send` makes, as a receiver reads them.
use is_rtsp_server.Base.{ℕ, ◌+◌, ◌*◌, ◌/◌, ◌%◌, ◌^◌, Option, none, some, List, ◌∷◌}

-- The fields of a packet, as RFC 3550, section 5.1, lays them out: version, padding, extension, the
-- count of contributing sources, marker, payload type, sequence number, timestamp, source, data.
pub record Fields : Type 0 where
  pub version : ℕ
  pub padding : ℕ
  pub extension : ℕ
  pub csrc_count : ℕ
  pub marker : ℕ
  pub payload_type : ℕ
  pub seq_no : ℕ
  pub timestamp : ℕ
  pub ssrc : ℕ
  pub bytes : List ℕ

abbrev pub quad : ℕ → ℕ → ℕ → ℕ → ℕ
quad a b c d = ((a * 2 ^ 8 + b) * 2 ^ 8 + c) * 2 ^ 8 + d

pub read_packet : List ℕ → Option Fields
read_packet (a ∷ b ∷ c ∷ d ∷ e ∷ f ∷ g ∷ h ∷ i ∷ j ∷ k ∷ l ∷ bytes) = some (record {
  version = a / 2 ^ 6;
  padding = a / 2 ^ 5 % 2;
  extension = a / 2 ^ 4 % 2;
  csrc_count = a % 2 ^ 4;
  marker = b / 2 ^ 7;
  payload_type = b % 2 ^ 7;
  seq_no = c * 2 ^ 8 + d;
  timestamp = quad e f g h;
  ssrc = quad i j k l;
  bytes = bytes;
})
read_packet _ = none
