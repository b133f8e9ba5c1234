-- ===== src/Rtcp.antt =====
-- rtcp.c: the sender reports that the server sends, each with a source description or a goodbye,
-- and the loop over the packets that it receives. Bytes are numbers below 256, in the order of the
-- memory; the machine is little-endian, so that `htons` and `htonl` leave the high byte first.
pub mod Received
pub mod Compound
pub mod Sizes
mod Tests
use Prim.Native.String.{String}
use is_rtsp_server.Base.{
  ℕ, zero, suc, ◌+◌, ◌-◌, ◌*◌, ◌/◌, ◌%◌, ◌^◌, Bool, ◌||◌, not, List, [], ◌∷◌, ◌++◌, length, drop,
  ltb, ◌==◌, if◌then◌else◌, Outcome, ok, fail, assertion, out_of_bounds, out_of_fuel, ◌>>=◌,
}
use is_rtsp_server.Text.{codes}
use is_rtsp_server.Interleaved.{byte, packet_length}

-- A number of 16 bits, and one of 32, in network order.
abbrev pub half : ℕ → List ℕ
half n = n / 2 ^ 8 % 2 ^ 8 ∷ n % 2 ^ 8 ∷ []

abbrev pub word : ℕ → List ℕ
word n = n / 2 ^ 24 % 2 ^ 8 ∷ n / 2 ^ 16 % 2 ^ 8 ∷ n / 2 ^ 8 % 2 ^ 8 ∷ n % 2 ^ 8 ∷ []

-- `RTCP_header` of version 2 with no padding: the counter of its reports or sources, the type, and
-- the length in words of 32 bits without the first.
abbrev pub header : ℕ → ℕ → ℕ → List ℕ
header count pt len = (2 * 2 ^ 6 + count) ∷ pt ∷ half len

-- What a report has of an RTP session: `RTP_session` and the name of the client's host.
pub record Source : Type 0 where
  pub ssrc : ℕ
  pub start_rtptime : ℕ
  pub pkt_count : ℕ
  pub octet_count : ℕ
  pub local_host : List ℕ

-- The clock when a report is made: `tv_sec` and `tv_nsec`, and the time since the playback started
-- in units of the clock rate, as `unsigned int`.
pub record Clock : Type 0 where
  pub tv_sec : ℕ
  pub tv_nsec : ℕ
  pub played : ℕ

-- `rtcp_set_sr`; 28 is the size of its two structures.
pub set_sr : Source → Clock → List ℕ
set_sr s c =
    header 0 200 (28 / 4 - 1)
    ++ word s.ssrc
    ++ word ((c.tv_sec + 2208988800) % 2 ^ 32)
    ++ word (c.tv_nsec * 2 ^ 32 % 2 ^ 64 / 1000000000 % 2 ^ 32)
    ++ word ((c.played + s.start_rtptime) % 2 ^ 32)
    ++ word s.pkt_count
    ++ word s.octet_count

-- How many bytes fill a size up to words of 32 bits.
abbrev pub padding : ℕ → ℕ
padding size = if size % 4 == 0 then 0 else 4 - size % 4

abbrev pub zeros : ℕ → List ℕ
zeros zero = []
zeros (suc n) = 0 ∷ zeros n

-- `rtcp_pkt_sr_sdes`, whose `RTCP_header_SDES` has 6 bytes before the name. The length of the name
-- is cut to 8 bits.
pub pkt_sr_sdes : Source → Clock → List ℕ
unfolding set_sr
pkt_sr_sdes s c =
    let name_len = length s.local_host in
    let pad = padding (28 + (4 + 6 + name_len)) in
    let sdes_size = 4 + 6 + name_len + pad in
    set_sr s c
    ++ header 1 202 (sdes_size / 4 - 1)
    ++ word s.ssrc
    ++ 1 ∷ name_len % 2 ^ 8 ∷ s.local_host
    ++ zeros pad

-- The text of a goodbye, with the zero that ends it.
abbrev pub reason : List ℕ
reason = codes "The medium is over." ++ 0 ∷ []

-- `rtcp_pkt_sr_bye`, whose `RTCP_header_BYE` has 5 bytes before the reason. Its `length` has 8 bits
-- and is assigned what `htonl` gives, the low byte of which is the high byte of the number.
pub pkt_sr_bye : Source → Clock → List ℕ
unfolding set_sr
pkt_sr_bye s c =
    let pad = padding (28 + (4 + 5 + length reason)) in
    let bye_size = 4 + 5 + length reason + pad in
    set_sr s c
    ++ header 1 203 (bye_size / 4 - 1)
    ++ word s.ssrc
    ++ (length reason - 1) / 2 ^ 24 % 2 ^ 8 ∷ reason
    ++ zeros pad

-- What `rtcp_send_sr` passes to `send_rtcp` for a type.
unfoldable pub send_sr : Source → Clock → ℕ → Outcome (List ℕ)
unfolding pkt_sr_sdes pkt_sr_bye
send_sr s c type =
    if type == 202
    then ok (pkt_sr_sdes s c)
    else if type == 203
    then ok (pkt_sr_bye s c)
    else fail assertion

-- `parse_receiver_report` on what follows a header of 4 bytes: it reads an SSRC and, for each report
-- that the header counts, a block of 24 bytes, wherever the packet ends.
abbrev pub parse_receiver_report : List ℕ → ℕ → Outcome (Unit {0})
parse_receiver_report packet count =
    if ltb (length packet) (4 + 24 * count) then fail out_of_bounds else ok tt

-- The `switch` of `rtcp_handle`
abbrev pub parse_packet : List ℕ → Outcome (Unit {0})
parse_packet packet =
    if byte packet 1 == 200 || byte packet 1 == 201
    then parse_receiver_report (drop 4 packet) (byte packet 0 % 2 ^ 5)
    else ok tt

-- `rtcp_handle`: the types and the sizes of the packets that it parses, in their order.
unfoldable pub handle : ℕ → List ℕ → Outcome (List (ℕ × ℕ))
handle zero packet = fail out_of_fuel
handle (suc fuel) packet =
    let rtcp_size = (packet_length packet + 1) * 4 in
    let rest = handle fuel (drop rtcp_size packet) in
    if not (ltb 4 (length packet))
    then ok []
    else if ltb (length packet) rtcp_size
    then ok []
    else (parse_packet packet >>= λ _. rest >>= λ ps. ok ((byte packet 1, rtcp_size) ∷ ps))
