-- ===== src/Tests/Streams.antt =====
-- Three packets that arrive in two reads, with the start of a fourth.
use mcchost.Base.{ℕ, ◌≡◌, ◌≢◌, ◌<◌, refl, inr, List, [], ◌∷◌, ◌++◌, arith}
use mathlib.Core.List.{cons≢nil}
use mcchost.Packet.Config.{msglen}
use mcchost.Receive.Frame.{Bytes, running, receive_byte, receive_bytes, remote_received}
use mcchost.Receive.Stream.{AreFilled, receive_chunks, process_all, Fit, receive_chunks-process_all}

filled : (c : ℕ) (s : Bytes) → c ∷ s ≢ []
filled c s = cons≢nil

-- A server that only lists what it was given.
abbrev pub Log : Type 0
Log = List Bytes

abbrev pub log_msglen : Log → ℕ → ℕ
log_msglen s = msglen

abbrev pub log_process : Log → ℕ → Bytes → Log
log_process s cmd pkt = s ++ pkt ∷ []

abbrev pub some_packets : List Bytes
some_packets = (0x0C ∷ 3 ∷ []) ∷ (0x01 ∷ []) ∷ (0x0C ∷ 4 ∷ []) ∷ []

abbrev two_reads : List Bytes
two_reads = (0x0C ∷ []) ∷ (3 ∷ 0x01 ∷ 0x0C ∷ 4 ∷ 0x0C ∷ []) ∷ []

pub some_packets-Fit : Fit log_msglen log_process [] some_packets
unfolding Fit msglen
some_packets-Fit = (filled _ _, refl, (filled _ _, refl, (filled _ _, refl, tt)))

pub two_reads-AreFilled : AreFilled two_reads
unfolding AreFilled
two_reads-AreFilled = (filled _ _, (filled _ _, tt))

pub one_byte-IsUnfinished : 1 < msglen 0x0C
unfolding msglen
one_byte-IsUnfinished = omega arith

two_reads_run :
    receive_chunks log_msglen log_process 0 [] [] two_reads ≡ running some_packets (0x0C ∷ [])
unfolding receive_chunks remote_received receive_bytes receive_byte msglen
two_reads_run = refl

receive_chunks-process_all_example :
    receive_chunks log_msglen log_process 0 [] [] two_reads
    ≡ running (process_all log_msglen log_process [] some_packets) (0x0C ∷ [])
receive_chunks-process_all_example =
    receive_chunks-process_all log_msglen log_process 0 [] some_packets two_reads (0x0C ∷ [])
      some_packets-Fit (inr one_byte-IsUnfinished) two_reads-AreFilled refl
