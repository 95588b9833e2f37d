-- ===== src/Tests/Inbounds.antt =====
-- Three packets, and the start of a fourth, in frames of two reads.
use mcchost.Base.{◌≡◌, refl, some, inl, inr, [], ◌∷◌, arith, List}
use mcchost.Websocket.Stream.{Frame, plain, masked}
use mcchost.Receive.Stream.{process_all}
use mcchost.Inbound.{receive_reads}
use mcchost.Inbound.Packets.{AllFrames, encodings, state_of, receive_reads-process_all}
use mcchost.Tests.Streams.{
  log_msglen, log_process, some_packets, some_packets-Fit, two_reads-AreFilled,
  one_byte-IsUnfinished,
}
use mcchost.Tests.Sockets.{open_socket, four_bytes-IsMask}

abbrev framed_reads : List (List Frame)
framed_reads =
    (masked 17 34 51 68 (0x0C ∷ []) ∷ [])
    ∷ (plain (3 ∷ 0x01 ∷ []) ∷ masked 17 34 51 68 (0x0C ∷ 4 ∷ 0x0C ∷ []) ∷ [])
    ∷ []

framed_reads-AllFrames : AllFrames framed_reads
framed_reads-AllFrames = (
  ((inl (omega arith), (four_bytes-IsMask, (omega arith, tt))), tt),
  (
    (
      inl (omega arith),
      (
        (inl (omega arith), (four_bytes-IsMask, (omega arith, (omega arith, (omega arith, tt))))),
        tt,
      ),
    ),
    tt,
  ),
)

receive_reads-process_all_example :
    state_of log_msglen log_process
      (receive_reads log_msglen log_process 0 open_socket [] [] (encodings framed_reads))
    ≡ some (process_all log_msglen log_process [] some_packets, 0x0C ∷ [])
receive_reads-process_all_example =
    receive_reads-process_all log_msglen log_process 0 open_socket [] some_packets (0x0C ∷ [])
      framed_reads framed_reads-AllFrames refl some_packets-Fit (inr one_byte-IsUnfinished)
      two_reads-AreFilled refl
