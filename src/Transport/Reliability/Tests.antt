-- ===== src/Transport/Reliability/Tests.antt =====
-- The timer at concrete inputs.
use rathole_ng.Prelude.{◌≡◌, refl, true, false, none, some, [], ◌∷◌, arith}
use rathole_ng.Transport.Stream.{SentPacket, StreamMode, StreamState}
use rathole_ng.Transport.Reliability.{secs, tick_stream}
use rathole_ng.Transport.Reliability.Timer.{payloads, is_exhausted, overdue, tick_stream_tcp}

abbrev packet : SentPacket
packet = record { payload = 7 ∷ []; sent_at = 0; retransmits = 0 }

abbrev waiting : StreamMode → StreamState
waiting mode = record {
  mode = mode;
  established = true;
  next_write_seq = 2;
  next_read_seq = 1;
  write_queue = (1, packet) ∷ [];
  read_buffer = [];
  read_buf_bytes = [];
  read_waker = none;
  write_waker = some 8;
}

abbrev tcp_stream : StreamState
tcp_stream = waiting StreamMode.tcp

abbrev udp_stream : StreamState
udp_stream = waiting StreamMode.udp

tick_stream_tcp_example :
    let result = tick_stream (secs 1) 4 tcp_stream in
    (payloads result.0.write_queue ≡ payloads tcp_stream.write_queue)
    × (result.2 ≡ is_exhausted (secs 1) tcp_stream.write_queue)
    × (is_exhausted (secs 1) tcp_stream.write_queue ≡ false
        → result.1 ≡ overdue (secs 1) 4 tcp_stream.write_queue)
tick_stream_tcp_example = tick_stream_tcp (secs 1) 4 tcp_stream refl (omega arith, tt)
