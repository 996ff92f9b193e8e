-- ===== src/Net/Tests.antt =====
-- Runs of the network stack, and the theorems at concrete inputs.
use vkernel.Common.{
  zero, suc, ◌+◌, ◌%◌, leb, length, ◌<◌, ◌↔◌, ◌≢◌, ℕ, ◌≡◌, ◌⊎◌, refl, true, false, none, some, List,
  [], ◌∷◌, arith, get_elem?,
}
use vkernel.Net.Arp.Cache.{
  cache_entry, Entry, init, insert, lookup, entry_count, holds, max_cache_entries,
}
use vkernel.Net.Arp.Lookup.{cache_entry-entry_count, IsValid, lookup-insert, lookup-insert_other}
use vkernel.Common.Arrays.{put}
use vkernel.Net.Transmit.{
  Device, Driver, QueuedPacket, TxQueue, tx_queue_capacity, refused, queue_packet,
  background_tx_task,
}
use vkernel.Net.TransmitQueue.{Holds, tx_rounds, queue_packet-background_tx_task}
use vkernel.Net.Arp.Frame.{
  ArpOperation, operation_code, send_arp_impl, send_arp_request, parse_arp_frame,
}
use vkernel.Net.Arp.Parsing.{both_blocks, arp_fields, parse_arp_frame-send_arp_impl}
use vkernel.Net.Arp.Observe.{observe_frame}
use vkernel.Net.Arp.Handshake.{observe_frame_handshake}
use vkernel.Net.Checksum.{add_word, sum_from, internet_checksum}
use vkernel.Net.Icmp.{EchoType, Sending, send_echo, Reaction, observe_packet}
use vkernel.Net.Ping.{observe_packet-send_echo}

init-IsValid : IsValid init
init-IsValid = record { size = refl; next = omega arith }

-- 10.0.2.2
abbrev router : ℕ
router = 0x0A00_0202

abbrev router_mac : ℕ
router_mac = 0x5254_0012_3502

lookup-insert_example :
    (lookup (insert init router router_mac).entries router ≡ some router_mac)
    × IsValid (insert init router router_mac)
lookup-insert_example = lookup-insert init router router_mac init-IsValid

lookup-insert_other_example :
    (lookup (insert init router router_mac).entries 1 ≡ lookup init.entries 1)
    ⊎ ((entry_count init.entries ≡ max_cache_entries)
        × ((e : Entry) × (get_elem? init.entries init.next_replace ≡ some e) × (holds e 1 ≡ true)))
lookup-insert_other_example =
    lookup-insert_other init router router_mac 1 init-IsValid (λ e. absurd (omega arith))

abbrev card : Device
card = record { mtu = 1500; mac = 0x5254_0012_3456; has_send = true }

abbrev far_card : Device
far_card = record { mtu = 1500; mac = router_mac; has_send = true }

-- A driver that accepts frames of at most 1514 bytes.
abbrev wire_driver : Driver
wire_driver dev frame = leb (length frame) 1514

abbrev waiting : QueuedPacket
waiting = record { dev = far_card; buffer = 1 ∷ 2 ∷ [] }

-- One packet, in the last slot of the ring.
abbrev wrapped : TxQueue
wrapped = record { started = true; slots = put (λ i. none) 63 (some waiting); head = 0; tail = 63 }

waiting_slot :
    (i : ℕ) (p : QueuedPacket)
    → get_elem? (waiting ∷ []) i ≡ some p
    → wrapped.slots ((63 + i) % tx_queue_capacity) ≡ some p
waiting_slot zero p e = e
waiting_slot (suc i) p e = absurd (cc)

wrapped-Holds : Holds wrapped (waiting ∷ [])
wrapped-Holds = record {
  tail_within = omega arith;
  few = omega arith;
  head_at = omega arith;
  in_slot = waiting_slot;
}

queue_packet-background_tx_task_example :
    let r = queue_packet wire_driver wrapped card (7 ∷ []) true in
    ((1 < 63)
      × (r.ok ≡ true)
      × ((background_tx_task wire_driver (tx_rounds wire_driver 1 r.queue)).handed
          ≡ some record { dev = card; buffer = 7 ∷ [] }))
    ⊎ ((◌≡◌ {A = ℕ} 1 63) × (r ≡ refused wrapped))
queue_packet-background_tx_task_example =
    queue_packet-background_tx_task wire_driver wrapped (waiting ∷ []) card (7 ∷ []) wrapped-Holds
      refl (omega arith) refl

parse_arp_frame-send_arp_impl_example :
    let queued =
      send_arp_impl wire_driver wrapped card ArpOperation.request 0 0x0A00_020F router true
        both_blocks in
    (frame : List ℕ) × (send_arp_impl wire_driver wrapped card ArpOperation.request 0 0x0A00_020F
        router false both_blocks
      ≡ record {
        ok = wire_driver card frame;
        queue = wrapped;
        handed = some record { dev = card; buffer = frame };
      })
    × (queued.ok ≡ true)
    × Holds queued.queue (waiting ∷ record { dev = card; buffer = frame } ∷ [])
    × (parse_arp_frame frame
        ≡ some (arp_fields 0x0A00_020F card.mac router (operation_code ArpOperation.request)))
parse_arp_frame-send_arp_impl_example =
    parse_arp_frame-send_arp_impl wire_driver wrapped (waiting ∷ []) card ArpOperation.request 0
      0x0A00_020F router (omega arith) (omega arith) (omega arith) (omega arith) refl wrapped-Holds
      refl (omega arith)

observe_frame_handshake_example :
    (request : List ℕ) × (reply : List ℕ) × (send_arp_request wire_driver wrapped card 0x0A00_020F
        router both_blocks
      ≡ record {
        ok = wire_driver card request;
        queue = wrapped;
        handed = some record { dev = card; buffer = request };
      })
    × (let told =
          observe_frame init wire_driver wrapped far_card (some router) both_blocks request in
        ((background_tx_task wire_driver (tx_rounds wire_driver 1 told.queue)).handed
          ≡ some record { dev = far_card; buffer = reply })
        × (lookup told.cache.entries 0x0A00_020F ≡ some card.mac))
    × (let learned = observe_frame init wire_driver wrapped card none both_blocks reply in
        lookup learned.cache.entries router ≡ some far_card.mac)
observe_frame_handshake_example =
    observe_frame_handshake wire_driver wire_driver wrapped wrapped (waiting ∷ []) card far_card
      init init 0x0A00_020F router none both_blocks (omega arith) (omega arith) (omega arith)
      (omega arith) (omega arith) (omega arith) refl refl refl wrapped-Holds (omega arith)
      init-IsValid init-IsValid

observe_packet-send_echo_example :
    (request : List ℕ) × (reply : List ℕ) × (send_echo EchoType.echo_request 7 1
        (97 ∷ 98 ∷ 99 ∷ [])
        true
      ≡ Sending.packet request)
    × (observe_packet request true ≡ Reaction.answered (Sending.packet reply))
    × (observe_packet reply true ≡ Reaction.reply_from 7 1 3)
observe_packet-send_echo_example =
    observe_packet-send_echo 7 1 (97 ∷ 98 ∷ 99 ∷ []) (omega arith) (omega arith)
      (omega arith, (omega arith, (omega arith, tt))) (omega arith)

-- A reply's checksum, over an odd number of bytes.
odd_checksum : internet_checksum (0 ∷ 0 ∷ 255 ∷ 255 ∷ 1 ∷ []) ≡ 0xFEFF
unfolding add_word sum_from internet_checksum
odd_checksum = refl

cache_entry-entry_count_example :
    (cache_entry (insert init router router_mac).entries 0 0 ≢ none)
    ↔ (0 < entry_count (insert init router router_mac).entries)
cache_entry-entry_count_example = cache_entry-entry_count (insert init router router_mac).entries 0
