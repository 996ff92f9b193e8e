-- ===== src/Net/Arp/Frame.antt =====
-- Ethernet and ARP frames as bytes: `transmit_ethernet` and `send_arp_impl` of src/net/net_packet.cpp,
-- and `parse_arp_frame` of src/net/arp.cpp, with the layouts of include/vkernel/net_wire.h. An
-- address is the number that its bytes spell, the first byte the highest, and so is a 16-bit field
-- that `bswap16` converts.
use vkernel.Common.{
  ℕ, zero, suc, ◌+◌, ◌-◌, ◌*◌, ◌/◌, ◌%◌, Bool, ◌||◌, not, Option, true, false, none, some, List, [],
  ◌∷◌, ◌++◌, ◌==◌, if◌then◌else◌, ltb, length, take, drop, replicate,
}
use vkernel.Net.Transmit.{Device, Driver, TxQueue, Transmission, refused, send_packet, queue_packet}

abbrev pub to_bytes : ℕ → ℕ → List ℕ
to_bytes zero v = []
to_bytes (suc w) v = to_bytes w (v / 256) ++ (v % 256 ∷ [])

abbrev pub of_bytes_from : ℕ → List ℕ → ℕ
of_bytes_from acc [] = acc
of_bytes_from acc (b ∷ bs) = of_bytes_from (acc * 256 + b) bs

abbrev pub of_bytes : List ℕ → ℕ
of_bytes bs = of_bytes_from 0 bs

-- `width` bytes of a frame from an offset on.
abbrev pub field : List ℕ → ℕ → ℕ → ℕ
field frame offset width = of_bytes (take width (drop offset frame))

abbrev pub ethernet_header_bytes : ℕ
ethernet_header_bytes = 14

abbrev pub arp_packet_bytes : ℕ
arp_packet_bytes = 28

abbrev pub min_frame_bytes : ℕ
min_frame_bytes = 60

abbrev pub type_ipv4 : ℕ
type_ipv4 = 0x0800

abbrev pub type_arp : ℕ
type_arp = 0x0806

pub data ArpOperation : Type 0 where
  request reply : ArpOperation

abbrev pub operation_code : ArpOperation → ℕ
operation_code ArpOperation.request = 1
operation_code ArpOperation.reply = 2

-- The frame, padded to the least length.
abbrev pub ethernet_frame : Device → ℕ → ℕ → List ℕ → List ℕ
ethernet_frame dev dst type payload =
    to_bytes 6 dst
    ++ (to_bytes 6 dev.mac
        ++ (to_bytes 2 type
            ++ (payload
                ++ replicate (min_frame_bytes - (ethernet_header_bytes + length payload)) 0)))

-- What the heap answers to the two allocations of a transmission: the frame, and its copy for the TX
-- queue.
pub record Blocks : Type 0 where
  pub frame : Bool
  pub copy : Bool

-- `transmit_ethernet`
unfoldable pub transmit_ethernet :
    Driver → TxQueue → Device → ℕ → ℕ → List ℕ → Bool → Blocks → Transmission
unfolding send_packet queue_packet
transmit_ethernet driver q dev dst type payload queued blocks =
    if ltb dev.mtu (length payload) || not blocks.frame
    then refused q
    else (if queued
        then queue_packet driver q dev (ethernet_frame dev dst type payload) blocks.copy
        else send_packet driver q dev (ethernet_frame dev dst type payload))

abbrev pub broadcast_mac : ℕ
broadcast_mac = 0xFFFF_FFFF_FFFF

unfoldable pub arp_packet : Device → ArpOperation → ℕ → ℕ → ℕ → List ℕ
arp_packet dev op target_mac sender_ip target_ip =
    to_bytes 2 1
    ++ (to_bytes 2 type_ipv4
        ++ (6 ∷ 4 ∷ to_bytes 2 (operation_code op)
            ++ (to_bytes 6 dev.mac
                ++ (to_bytes 4 sender_ip ++ (to_bytes 6 target_mac ++ to_bytes 4 target_ip)))))

abbrev pub ethernet_target : ArpOperation → ℕ → ℕ
ethernet_target ArpOperation.request target_mac = broadcast_mac
ethernet_target ArpOperation.reply target_mac = target_mac

-- `send_arp_impl`
unfoldable pub send_arp_impl :
    Driver → TxQueue → Device → ArpOperation → ℕ → ℕ → ℕ → Bool → Blocks → Transmission
unfolding transmit_ethernet arp_packet
send_arp_impl driver q dev op target_mac sender_ip target_ip queued blocks =
    transmit_ethernet driver q dev (ethernet_target op target_mac) type_arp
      (arp_packet dev op target_mac sender_ip target_ip) queued blocks

abbrev pub send_arp_request : Driver → TxQueue → Device → ℕ → ℕ → Blocks → Transmission
send_arp_request driver q dev sender_ip target_ip blocks =
    send_arp_impl driver q dev ArpOperation.request 0 sender_ip target_ip false blocks

abbrev pub queue_arp_reply : Driver → TxQueue → Device → ℕ → ℕ → ℕ → Blocks → Transmission
queue_arp_reply driver q dev target_mac sender_ip target_ip blocks =
    send_arp_impl driver q dev ArpOperation.reply target_mac sender_ip target_ip true blocks

pub record ParsedArp : Type 0 where
  pub sender_ip : ℕ
  pub sender_mac : ℕ
  pub target_ip : ℕ
  pub operation : ℕ

-- `parse_arp_frame`
unfoldable pub parse_arp_frame : List ℕ → Option ParsedArp
parse_arp_frame frame =
    if ltb (length frame) (ethernet_header_bytes + arp_packet_bytes)
    then none
    else (if not (field frame 12 2 == type_arp)
        then none
        else (if not (field frame 14 2 == 1)
              || (not (field frame 16 2 == type_ipv4)
                  || (not (field frame 18 1 == 6) || not (field frame 19 1 == 4)))
            then none
            else some record {
              sender_ip = field frame 28 4;
              sender_mac = field frame 22 6;
              target_ip = field frame 38 4;
              operation = field frame 20 2;
            }))
