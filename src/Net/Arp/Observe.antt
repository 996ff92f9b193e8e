-- ===== src/Net/Arp/Observe.antt =====
-- `observe_frame` of src/net/arp.cpp, with `owns_address` of src/net/ipv4.cpp.
use vkernel.Common.{ℕ, Bool, true, false, ◌&&◌, Option, none, some, List, ◌==◌, if◌then◌else◌}
use vkernel.Net.Arp.Cache.{Cache, insert}
use vkernel.Net.Arp.Frame.{
  ArpOperation, operation_code, Blocks, queue_arp_reply, send_arp_impl, ParsedArp, parse_arp_frame,
}
use vkernel.Net.Transmit.{Device, Driver, QueuedPacket, TxQueue, Transmission, refused}

-- What `configured_address` answers for the device, or `none`, decides `owns_address`.
unfoldable pub owns_address : Option ℕ → ℕ → Bool
owns_address none ip = false
owns_address (some local_ip) ip = local_ip == ip

-- Whether the frame was taken, the cache, the TX queue, and what the driver got at once.
pub record Observed : Type 0 where
  pub taken : Bool
  pub cache : Cache
  pub queue : TxQueue
  pub handed : Option QueuedPacket

-- The reply to a request for an address of the device; its failure is only logged.
unfoldable pub answer : Driver → TxQueue → Device → Option ℕ → Blocks → ParsedArp → Transmission
unfolding owns_address send_arp_impl
answer driver q dev local_ip blocks p =
    if p.operation == operation_code ArpOperation.request && owns_address local_ip p.target_ip
    then queue_arp_reply driver q dev p.sender_mac p.target_ip p.sender_ip blocks
    else refused q

unfoldable pub observe_parsed :
    Cache → Driver → TxQueue → Device → Option ℕ → Blocks → Option ParsedArp → Observed
unfolding answer
observe_parsed c driver q dev local_ip blocks none = record {
  taken = false;
  cache = c;
  queue = q;
  handed = none;
}
observe_parsed c driver q dev local_ip blocks (some p) =
    let sent = answer driver q dev local_ip blocks p in
    record {
      taken = true;
      cache = insert c p.sender_ip p.sender_mac;
      queue = sent.queue;
      handed = sent.handed;
    }

-- `observe_frame` on a device.
unfoldable pub observe_frame :
    Cache → Driver → TxQueue → Device → Option ℕ → Blocks → List ℕ → Observed
unfolding observe_parsed
observe_frame c driver q dev local_ip blocks frame =
    observe_parsed c driver q dev local_ip blocks (parse_arp_frame frame)
