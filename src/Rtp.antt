-- ===== src/Rtp.antt =====
-- rtp.c: the RTP packet of a media buffer, and the timer of an RTP session, which takes the buffers
-- from the session's queue (bufferqueue.c) and sends reports (rtcp.c).
pub mod Packet
pub mod Writer
pub mod Finishing
mod Tests
use is_rtsp_server.Base.{
  ℕ, ◌+◌, ◌*◌, ◌%◌, ◌^◌, Bool, true, false, Option, none, some, List, [], ◌∷◌, ◌++◌, length, ◌==◌,
  if◌then◌else◌, Outcome, ok, fail, null_pointer, ◌>>=◌,
}
use is_rtsp_server.BufferQueue.{Element, Producer, Consumer, consumer_stopped, get, move}
use is_rtsp_server.Rtcp.{half, word, Source, Clock, send_sr}

-- What a `MParserBuffer` carries. `T` stands for `double`.
pub record Buffer (T : Type 0) : Type 0 where
  pub timestamp : T
  pub delivery : T
  pub duration : T
  pub marker : ℕ
  pub bytes : List ℕ

-- The arithmetic on `double`: 0.1, the sum, the difference, whether two differ, whether one is above
-- 0, and `(timestamp - begin_time) * clock_rate` as a `uint32_t`.
pub record Times (T : Type 0) : Type 0 where
  pub tenth : T
  pub plus : T → T → T
  pub minus : T → T → T
  pub differ : T → T → Bool
  pub positive : T → Bool
  pub nonzero : T → Bool
  pub scaled : T → T → ℕ → ℕ

-- An RTP session that is played: `RTP_session` with its range, its track and its queue. `accepts` is
-- whether the transport takes an RTP packet. `sent` and `reports` are what it took and was given so
-- far, the latest last; `offset` is when the timer was due, `due` when it is next, if it is set;
-- `fills` counts the tasks that were pushed to the fill pool.
pub record Stream (T : Type 0) : Type 0 where
  pub producer : Producer (Buffer T)
  pub consumer : Consumer
  pub source : Source
  pub begin_time : T
  pub playback_time : T
  pub last_timestamp : Option T
  pub last_packet_send_time : ℕ
  pub clock_rate : ℕ
  pub payload_type : ℕ
  pub live : Bool
  pub frame_duration : T
  pub eor : Bool
  pub accepts : List ℕ → Bool
  pub sent : List (List ℕ)
  pub reports : List (List ℕ)
  pub offset : T
  pub due : Option T
  pub fills : ℕ

-- The packet that `rtp_packet_send` makes of a buffer with a sequence number.
pub packet : ℕ → ℕ → ℕ → ℕ → ℕ → List ℕ → List ℕ
packet marker payload_type seq_no timestamp ssrc bytes =
    (2 * 2 ^ 6) ∷ (marker % 2 * 2 ^ 7 + payload_type % 2 ^ 7) ∷ half seq_no
    ++ word timestamp
    ++ word ssrc
    ++ bytes

module _ {T : Type 0} where
  -- The end of `rtp_write_cb`: the timer is set, and the fill pool is given a task.
  abbrev pub set_timer : T → Stream T → Stream T
  set_timer next_time s = record s { due = some next_time; fills = s.fills + 1 }

  -- The queue of the session as a call leaves it.
  abbrev pub with_queue : Stream T → Producer (Buffer T) → Consumer → Stream T
  with_queue s p c = record s { producer = p; consumer = c }

module _ {T : Type 0} (times : Times T) (clock : Clock) (now : ℕ) where
  -- `rtptime`
  pub rtptime : Stream T → Buffer T → ℕ
  rtptime s b =
      (s.source.start_rtptime + times.scaled b.timestamp s.begin_time s.clock_rate) % 2 ^ 32

  abbrev pub packet_of : Stream T → ℕ → Buffer T → List ℕ
  packet_of s seq_no b = packet b.marker s.payload_type seq_no (rtptime s b) s.source.ssrc b.bytes

  -- `rtp_packet_send`
  pub packet_send : Stream T → Element (Buffer T) → Stream T
  unfolding packet rtptime
  packet_send s e =
      let b = e.load in
      if s.accepts (packet_of s e.seq_no b)
      then record s {
        sent = s.sent ++ packet_of s e.seq_no b ∷ [];
        last_timestamp = some b.timestamp;
        source = record (s.source) {
          pkt_count = (s.source.pkt_count + 1) % 2 ^ 32;
          octet_count = (s.source.octet_count + length b.bytes) % 2 ^ 32;
        };
        last_packet_send_time = now;
      }
      else s

  -- `rtcp_send_sr`, of a type
  pub report : ℕ → Stream T → Outcome (Stream T)
  unfolding send_sr
  report type s =
      send_sr s.source clock type >>= λ xs. ok (record s { reports = s.reports ++ xs ∷ [] })

  -- When the timer is next due, once the next buffer is at hand.
  pub next_time : Stream T → Buffer T → Buffer T → T
  next_time s b next =
      if times.differ b.delivery next.delivery
      then (if s.live
          then times.plus s.offset (times.minus next.delivery b.delivery)
          else times.plus (times.minus s.playback_time s.begin_time) next.delivery)
      else s.offset

  -- `rtp_write_cb` when the queue has nothing to read.
  pub nothing_to_read : Stream T → Outcome (Stream T)
  unfolding report
  nothing_to_read s =
      if s.eor
      then report 203 s
      else ok (
          set_timer
            (times.plus s.offset
              (if times.positive s.frame_duration then s.frame_duration else times.tenth))
            s)

  -- `rtp_write_cb` once the buffer is sent: on to the next one.
  pub move_on : Stream T → Buffer T → Outcome (Stream T)
  unfolding next_time move get
  move_on s b = move s.producer s.consumer >>= λ r.
      if r.2
      then (get (r.0) (r.1) >>= λ q. elim q.2 [
        | none ↦ fail null_pointer
        | some next ↦ ok (set_timer (next_time s b next.load) (with_queue s (q.0) (q.1)))
      ])
      else ok (
          set_timer
            (times.plus s.offset (if times.nonzero b.duration then b.duration else times.tenth))
            (with_queue s (r.0) (r.1)))

  -- `rtp_write_cb` with a buffer: one packet, and a report after each 29.
  pub send_buffer : Stream T → Element (Buffer T) → Outcome (Stream T)
  unfolding packet_send report move_on
  send_buffer s e =
      let t = packet_send s e in
      (if t.source.pkt_count % 29 == 1 then report 202 t else ok t) >>= λ u. move_on u e.load

  -- `rtp_write_cb`
  pub write_cb : Stream T → Outcome (Stream T)
  unfolding report nothing_to_read send_buffer get consumer_stopped
  write_cb s =
      if consumer_stopped s.producer
      then report 203 s
      else (get s.producer s.consumer >>= λ r. elim r.2 [
        | none ↦ nothing_to_read (with_queue s (r.0) (r.1))
        | some e ↦ send_buffer (with_queue s (r.0) (r.1)) e
      ])
