-- ===== src/Interleaved.antt =====
-- rtsp_interleaved.c, RTP and RTCP packets inside the RTSP connection, and the end of it that
-- receives them, `RTSP_handle_interleaved` of rtsp_state_machine.c. Bytes are numbers below 256.
pub mod Frames
pub mod Channels
mod Tests
use is_rtsp_server.Base.{
  ℕ, ◌+◌, ◌*◌, ◌/◌, ◌%◌, ◌^◌, Bool, true, false, ◌||◌, Option, none, some, List, [], ◌∷◌, ◌++◌,
  length, get_elem?, take, drop, ltb, leb, ◌==◌, if◌then◌else◌, Outcome, ok, assert, ◌>>◌, ◌>>=◌,
}
use is_rtsp_server.Client.{Client, begin}

-- What `rtp_interleaved_send_pkt` passes to `write_data`: the length is cut to 16 bits, the channel
-- to 8.
pub send_pkt : ℕ → List ℕ → List ℕ
send_pkt channel buffer =
    let n = length buffer % 2 ^ 16 in 36 ∷ channel % 2 ^ 8 ∷ n / 2 ^ 8 ∷ n % 2 ^ 8 ∷ buffer

-- `data[i]`, where `i` is below the length.
abbrev pub byte : List ℕ → ℕ → ℕ
byte xs i = elim (get_elem? xs i) [ none ↦ 0 | some b ↦ b ]

-- `data[2] << 8 | data[3]`
abbrev pub packet_length : List ℕ → ℕ
packet_length xs = (byte xs 2 * 2 ^ 8 + byte xs 3) % 2 ^ 16

-- `rtsp_interleaved_register`: an RTCP channel that was registered before changes hands.
unfoldable pub register : ℕ → ℕ → List (ℕ × ℕ) → List (ℕ × ℕ)
register rtcp rtp_s [] = (rtcp, rtp_s) ∷ []
register rtcp rtp_s (e ∷ es) =
    if e.0 == rtcp then (rtcp, rtp_s) ∷ es else e ∷ register rtcp rtp_s es

-- The lookup of `rtsp_interleaved_receive`
pub receiver : ℕ → List (ℕ × ℕ) → Option ℕ
receiver channel [] = none
receiver channel (e ∷ es) = if e.0 == channel then some (e.1) else receiver channel es

-- A channel as the client asked for it, or the next free one; and the last one given out since.
abbrev pub choose : Option ℕ → ℕ → ℕ × ℕ
choose none free = (free + 1, free + 1)
choose (some n) free = (n, free)

module _ {T : Type 0} where
  -- The client once the packet that its input starts with is received.
  unfoldable pub packet_received : Client T → ℕ → Client T
  packet_received c n = record c {
    received = c.received ++ (byte c.input 1, take n (drop 4 c.input)) ∷ [];
    input = drop (n + 4) c.input;
    status = begin;
  }

  -- `RTSP_handle_interleaved`
  unfoldable pub handle_interleaved : Client T → Outcome (Client T × Bool)
  unfolding packet_received
  handle_interleaved c =
      let n = packet_length c.input in
      if ltb (length c.input) 4 then ok (c, false) else do
        assert (byte c.input 0 == 36)
        if ltb (length c.input) (n + 4) then ok (c, false) else ok (packet_received c n, true)

  -- `rtp_interleaved_transport` for RTP session `rtp_s`: its channels for RTP and RTCP, or a
  -- refusal. A channel that the client left open is `none`, which is -1 in the source.
  unfoldable pub transport : Client T → ℕ → Option ℕ → Option ℕ → Client T × Option (ℕ × ℕ)
  unfolding register
  transport c rtp_s rtp rtcp =
      let a = choose rtp c.first_free_channel in
      let b = choose rtcp a.1 in
      if leb 256 a.0 || leb 256 b.0 then (record c { first_free_channel = b.1 }, none) else (
        record c { first_free_channel = b.1; channels = register b.0 rtp_s c.channels },
        some (a.0, b.0),
      )
