-- ===== src/Net/Transmit.antt =====
-- Transmission of frames, src/net/net.cpp: `send_packet`, which hands a frame to the driver, and the
-- TX queue between `queue_packet` and `background_tx_task`. The driver is a parameter: the answer of
-- the device's `send_packet` entry for a frame.
use vkernel.Common.Arrays.{put}
use vkernel.Common.{
  ℕ, ◌+◌, ◌%◌, Bool, true, false, ◌||◌, not, Option, none, some, List, ◌==◌, if◌then◌else◌, length,
}

-- The fields of `net_device` that a transmission reads; `has_send` says that `ops` and its
-- `send_packet` are not null.
pub record Device : Type 0 where
  pub mtu : ℕ
  pub mac : ℕ
  pub has_send : Bool

abbrev pub Driver : Type 0
Driver = Device → List ℕ → Bool

-- `queued_packet`; a slot with a null buffer is `none`.
pub record QueuedPacket : Type 0 where
  pub dev : Device
  pub buffer : List ℕ

-- `s_background_tx_started` and the ring.
pub record TxQueue : Type 0 where
  pub started : Bool
  pub slots : ℕ → Option QueuedPacket
  pub head : ℕ
  pub tail : ℕ

abbrev pub tx_queue_capacity : ℕ
tx_queue_capacity = 64

abbrev pub tx_queue_empty : TxQueue → Bool
tx_queue_empty q = q.head == q.tail

abbrev pub tx_queue_full : TxQueue → Bool
tx_queue_full q = (q.head + 1) % tx_queue_capacity == q.tail

-- What a call returns, the queue behind it, and what the driver got.
pub record Transmission : Type 0 where
  pub ok : Bool
  pub queue : TxQueue
  pub handed : Option QueuedPacket

abbrev pub refused : TxQueue → Transmission
refused q = record { ok = false; queue = q; handed = none }

-- `send_packet`
unfoldable pub send_packet : Driver → TxQueue → Device → List ℕ → Transmission
send_packet driver q dev packet =
    if length packet == 0 || not dev.has_send then refused q else record {
      ok = driver dev packet;
      queue = q;
      handed = some record { dev = dev; buffer = packet };
    }

abbrev pub enqueue : TxQueue → Device → List ℕ → TxQueue
enqueue q dev packet = record q {
  slots = put q.slots q.head (some record { dev = dev; buffer = packet });
  head = (q.head + 1) % tx_queue_capacity;
}

-- `queue_packet`; `copy_allocated` says whether the heap has a block for the copy of the packet.
unfoldable pub queue_packet : Driver → TxQueue → Device → List ℕ → Bool → Transmission
unfolding send_packet
queue_packet driver q dev packet copy_allocated =
    if length packet == 0
    then refused q
    else (if not q.started
        then send_packet driver q dev packet
        else (if not copy_allocated || tx_queue_full q
            then refused q
            else record { ok = true; queue = enqueue q dev packet; handed = none }))

-- The entry that the TX task takes: the slot at the tail, which it clears, and none of an empty queue.
unfoldable pub take_packet : TxQueue → Option QueuedPacket × TxQueue
take_packet q = if tx_queue_empty q then (none, q) else (
  q.slots q.tail,
  record q { slots = put q.slots q.tail none; tail = (q.tail + 1) % tx_queue_capacity },
)

unfoldable pub send_entry : Driver → Option QueuedPacket × TxQueue → Transmission
unfolding send_packet
send_entry driver (none, q) = refused q
send_entry driver (some p, q) = send_packet driver q p.dev p.buffer

-- One round of `background_tx_task`.
unfoldable pub background_tx_task : Driver → TxQueue → Transmission
unfolding take_packet send_entry
background_tx_task driver q = send_entry driver (take_packet q)
