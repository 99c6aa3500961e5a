-- ===== src/Live.antt =====
-- source/live_parser.cpp: captured packets go into a double buffer, and consumer threads hand what
-- they read to the task executor. The packets that libpcap delivers are arguments. These are the calls
-- one after the other; Program has them as steps of several threads.
use huntind.Common.{
  ℕ, zero, suc, ltb_ℤ, List, [], ◌∷◌, ◌++◌, length, Bool, true, false, min, ◌==◌, if◌then◌else◌,
  take, ℤ, pos, negsuc,
}
use huntind.Common.Outcome.{Outcome, ok, fault, length_error}
use huntind.Settings.{CaptureOption}
use huntind.Packet.{RawPacket}
use huntind.Buffer.{DoubleBuffer, empty, enqueue, read}

-- The parser, with the batches handed to the executor, oldest first.
pub record LiveParser : Type 0 where
  pub is_running : Bool
  pub queue : DoubleBuffer RawPacket
  pub batches : List (List RawPacket)

unfoldable pub new_parser : LiveParser
new_parser = record { is_running = true; queue = empty; batches = [] }

-- A packet as libpcap gives it: the header, and bytes of which `caplen` belong to the packet.
unfoldable pub make_raw : CaptureOption → (caplen tv_sec tv_usec : ℕ) → List ℕ → RawPacket
make_raw opt caplen tv_sec tv_usec packet = record {
  caplen = caplen;
  tv_sec = tv_sec;
  tv_usec = tv_usec;
  byte_arr = take (min opt.total_bytes caplen) packet;
}

unfoldable pub live_handler : LiveParser → RawPacket → LiveParser
live_handler p raw = record p { queue = enqueue p.queue raw }

-- One round of `consumer_job` behind its first sleep.
unfoldable pub consumer_round : LiveParser → LiveParser
consumer_round p =
    let (current_queue, queue) = read p.queue in
    if length current_queue == 0
    then record p { queue = queue }
    else record p { queue = queue; batches = p.batches ++ (current_queue ∷ []) }

unfoldable pub stop_capture : LiveParser → LiveParser
stop_capture p = record p { is_running = false }

-- The constructor: the parser and the number of consumers that it starts. A negative number of workers
-- is no size that `reserve` takes.
unfoldable pub new_live_parser : CaptureOption → Outcome (LiveParser × ℕ)
new_live_parser opt = elim opt.workers [
  | pos n ↦ ok (new_parser, n)
  | negsuc n ↦ fault length_error
]

-- The thread that stops the capture after a time.
unfoldable pub has_canceler : CaptureOption → Bool
has_canceler opt = ltb_ℤ (pos 0) opt.duration

-- `startCapture`: `pcap_loop`, of libpcap, chooses by `num_packets` which of the packets of the line it
-- hands to the callback.
unfoldable pub start_capture :
    (pcap_loop : ℤ → List RawPacket → List RawPacket)
    → CaptureOption
    → (line : List RawPacket) → LiveParser
    → LiveParser
start_capture pcap_loop opt line p = handle_all (pcap_loop opt.num_packets line) p
  where
    handle_all : List RawPacket → LiveParser → LiveParser
    handle_all [] q = q
    handle_all (raw ∷ raws) q = handle_all raws (live_handler q raw)

-- The destructor stops the consumers; each of the `awake` ones ends its round before it is joined.
unfoldable pub destroy_parser : (awake : ℕ) → LiveParser → LiveParser
destroy_parser awake p = join_all awake (record p { is_running = false })
  where
    join_all : ℕ → LiveParser → LiveParser
    join_all zero q = q
    join_all (suc n) q = join_all n (consumer_round q)
