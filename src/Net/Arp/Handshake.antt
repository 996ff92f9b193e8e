-- ===== src/Net/Arp/Handshake.antt =====
-- Two kernels on one wire: a request, the reply to it, and what both caches say then.
use vkernel.Common.{ℕ, ◌^◌, ◌≤◌, ◌<◌, ◌≡◌, true, Option, some, List, ==_refl, length}
use vkernel.Net.Transmit.{Device, Driver, QueuedPacket, TxQueue, background_tx_task}
use vkernel.Net.TransmitQueue.{Holds, tx_rounds, background_tx_task-last}
use vkernel.Net.Arp.Cache.{Cache, lookup}
use vkernel.Net.Arp.Lookup.{IsValid, lookup-insert}
use vkernel.Net.Arp.Frame.{ArpOperation, Blocks, operation_code, send_arp_request, parse_arp_frame}
use vkernel.Net.Arp.Parsing.{
  both_blocks, arp_frame, arp_fields, parse_arp_frame-arp_frame, send_arp_impl-direct,
  send_arp_impl-queued, some_bytes,
}
use vkernel.Net.Arp.Observe.{owns_address, answer, observe_parsed, observe_frame}

-- The frame of an operation teaches its receiver the sender.
observe_frame-arp_frame :
    (c : Cache) (driver : Driver) (q : TxQueue) (dev : Device) (local_ip : Option ℕ)
    (blocks : Blocks) (frame : List ℕ) (ip mac target_ip operation : ℕ)
    → IsValid c
    → parse_arp_frame frame ≡ some (arp_fields ip mac target_ip operation)
    → lookup (observe_frame c driver q dev local_ip blocks frame).cache.entries ip ≡ some mac
unfolding observe_frame observe_parsed
observe_frame-arp_frame c driver q dev local_ip blocks frame ip mac target_ip operation v e =
    rw e (lookup-insert c ip mac v).0

-- A request for an address that the other kernel's device owns makes that kernel queue a reply, which
-- its driver gets once the packets in front of it have been taken; and then both caches answer: the
-- other one's with the asker's address, and the asker's, once it has observed the reply, with the
-- address it asked for. Both devices have a send entry and an MTU with room for an ARP packet, there
-- is memory for the frames and for the copy, and the owner's TX task is started with fewer than 63
-- packets in its queue. What the asker's driver answers is what the request returns.
pub observe_frame_handshake :
    (asking_driver owning_driver : Driver) (asking_queue owning_queue : TxQueue)
    (ps : List QueuedPacket) (asker owner : Device) (asking asked : Cache) (asker_ip owner_ip : ℕ)
    (local_ip : Option ℕ) (blocks : Blocks)
    → asker.mac < 256 ^ 6
    → owner.mac < 256 ^ 6
    → asker_ip < 256 ^ 4
    → owner_ip < 256 ^ 4
    → 28 ≤ asker.mtu
    → 28 ≤ owner.mtu
    → asker.has_send ≡ true
    → owner.has_send ≡ true
    → owning_queue.started ≡ true
    → Holds owning_queue ps
    → length ps < 63
    → IsValid asking
    → IsValid asked
    → (request : List ℕ) × (reply : List ℕ) × (send_arp_request asking_driver asking_queue asker
          asker_ip owner_ip both_blocks
        ≡ record {
          ok = asking_driver asker request;
          queue = asking_queue;
          handed = some record { dev = asker; buffer = request };
        })
      × (let told =
            observe_frame asked owning_driver owning_queue owner
              (some owner_ip)
              both_blocks
              request in
          ((background_tx_task owning_driver
              (tx_rounds owning_driver (length ps) told.queue)).handed
            ≡ some record { dev = owner; buffer = reply })
          × (lookup told.cache.entries asker_ip ≡ some asker.mac))
      × (let learned =
            observe_frame asking asking_driver asking_queue asker local_ip blocks reply in
          lookup learned.cache.entries owner_ip ≡ some owner.mac)
unfolding observe_frame observe_parsed answer owns_address
observe_frame_handshake asking_driver owning_driver asking_queue owning_queue ps asker owner asking
      asked asker_ip owner_ip local_ip blocks am om ai oi at ot asks owns on h room va vo =
    let request = arp_frame asker ArpOperation.request 0 asker_ip owner_ip in
    let reply = arp_frame owner ArpOperation.reply asker.mac owner_ip asker_ip in
    let q = parse_arp_frame-arp_frame asker ArpOperation.request 0 asker_ip owner_ip am ai oi in
    let r =
      parse_arp_frame-arp_frame owner ArpOperation.reply asker.mac owner_ip asker_ip om oi ai in
    let s =
      send_arp_impl-queued owning_driver owning_queue ps owner ArpOperation.reply asker.mac owner_ip
        asker_ip ot h on room in
    let filled = some_bytes owner ArpOperation.reply asker.mac owner_ip asker_ip in
    (
      request,
      reply,
      send_arp_impl-direct asking_driver asking_queue asker ArpOperation.request 0 asker_ip owner_ip
          at asks,
      (
        rw (q, ==_refl owner_ip)
            (background_tx_task-last owning_driver _ ps owner reply s.1 filled owns),
        observe_frame-arp_frame asked owning_driver owning_queue owner (some owner_ip) both_blocks
            request asker_ip asker.mac owner_ip (operation_code ArpOperation.request) vo q,
      ),
      observe_frame-arp_frame asking asking_driver asking_queue asker local_ip blocks reply owner_ip
          owner.mac asker_ip (operation_code ArpOperation.reply) va r,
    )
