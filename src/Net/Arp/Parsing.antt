-- ===== src/Net/Arp/Parsing.antt =====
-- What one kernel sends with ARP is what another one reads.
use vkernel.Common.{
  ℕ, zero, suc, ◌+◌, ◌*◌, ◌/◌, ◌%◌, ◌^◌, ◌≤◌, ◌<◌, ◌≡◌, refl, true, false, some, List, [], ◌∷◌,
  ◌++◌, arith, ltb, ap, length,
}
use native.Mathlib.Nat.{pow-suc}
use vkernel.Net.Transmit.{Device, Driver, QueuedPacket, TxQueue, send_packet}
use vkernel.Net.TransmitQueue.{Holds, queue_packet-Holds}
use vkernel.Net.Arp.Frame.{
  to_bytes, of_bytes, of_bytes_from, ArpOperation, operation_code, Blocks, transmit_ethernet,
  arp_packet, send_arp_impl, ethernet_frame, type_arp, ParsedArp, parse_arp_frame, ethernet_target,
}

of_bytes_from-append :
    (acc : ℕ) (xs ys : List ℕ)
    → of_bytes_from acc (xs ++ ys) ≡ of_bytes_from (of_bytes_from acc xs) ys
of_bytes_from-append acc [] ys = refl
of_bytes_from-append acc (x ∷ xs) ys = of_bytes_from-append (acc * 256 + x) xs ys

-- A number of so many bytes.
pub of_bytes-to_bytes : (w v : ℕ) → v < 256 ^ w → of_bytes (to_bytes w v) ≡ v
of_bytes-to_bytes zero v h = omega arith
of_bytes-to_bytes (suc w) v h =
    let lt : v / 256 < 256 ^ w = omega (arith, pow-suc 256 w) in
    rw
      (
        of_bytes_from-append 0 (to_bytes w (v / 256)) (v % 256 ∷ []),
        of_bytes-to_bytes w (v / 256) lt,
      )
      (omega arith)

abbrev pub arp_fields : ℕ → ℕ → ℕ → ℕ → ParsedArp
arp_fields sender_ip sender_mac target_ip operation = record {
  sender_ip = sender_ip;
  sender_mac = sender_mac;
  target_ip = target_ip;
  operation = operation;
}

fields_eq :
    {a b c d a' b' c' d' : ℕ}
    → a ≡ a'
    → b ≡ b'
    → c ≡ c'
    → d ≡ d'
    → some (arp_fields a b c d) ≡ some (arp_fields a' b' c' d')
fields_eq p q r s = λ i. some (arp_fields (p i) (q i) (r i) (s i))

of_bytes-operation :
    (op : ArpOperation) → of_bytes (to_bytes 2 (operation_code op)) ≡ operation_code op
of_bytes-operation ArpOperation.request = refl
of_bytes-operation ArpOperation.reply = refl

abbrev pub both_blocks : Blocks
both_blocks = record { frame = true; copy = true }

-- The frame that an operation makes.
abbrev pub arp_frame : Device → ArpOperation → ℕ → ℕ → ℕ → List ℕ
arp_frame dev op target_mac sender_ip target_ip =
    ethernet_frame dev (ethernet_target op target_mac) type_arp
      (arp_packet dev op target_mac sender_ip target_ip)

pub parse_arp_frame-arp_frame :
    (dev : Device) (op : ArpOperation) (target_mac sender_ip target_ip : ℕ)
    → dev.mac < 256 ^ 6
    → sender_ip < 256 ^ 4
    → target_ip < 256 ^ 4
    → parse_arp_frame (arp_frame dev op target_mac sender_ip target_ip)
      ≡ some (arp_fields sender_ip dev.mac target_ip (operation_code op))
unfolding arp_packet parse_arp_frame
parse_arp_frame-arp_frame dev op target_mac sender_ip target_ip m s t =
    fields_eq (of_bytes-to_bytes 4 sender_ip s) (of_bytes-to_bytes 6 dev.mac m)
      (of_bytes-to_bytes 4 target_ip t) (of_bytes-operation op)

pub some_bytes :
    (dev : Device) (op : ArpOperation) (target_mac sender_ip target_ip : ℕ)
    → 0 < length (arp_frame dev op target_mac sender_ip target_ip)
unfolding arp_packet
some_bytes dev op target_mac sender_ip target_ip = omega arith

-- Sent at once: the driver gets the frame, and its answer is returned.
pub send_arp_impl-direct :
    (driver : Driver) (q : TxQueue) (dev : Device) (op : ArpOperation)
    (target_mac sender_ip target_ip : ℕ)
    → 28 ≤ dev.mtu
    → dev.has_send ≡ true
    → let frame = arp_frame dev op target_mac sender_ip target_ip in
      send_arp_impl driver q dev op target_mac sender_ip target_ip false both_blocks ≡ record {
        ok = driver dev frame;
        queue = q;
        handed = some record { dev = dev; buffer = frame };
      }
unfolding send_arp_impl transmit_ethernet send_packet arp_packet
send_arp_impl-direct driver q dev op target_mac sender_ip target_ip big sends =
    let fits : ltb dev.mtu 28 ≡ false = ground arith in simp (fits, sends) refl

-- Queued: the frame is the last packet of the queue.
pub send_arp_impl-queued :
    (driver : Driver) (q : TxQueue) (ps : List QueuedPacket) (dev : Device) (op : ArpOperation)
    (target_mac sender_ip target_ip : ℕ)
    → 28 ≤ dev.mtu
    → Holds q ps
    → q.started ≡ true
    → length ps < 63
    → let t = send_arp_impl driver q dev op target_mac sender_ip target_ip true both_blocks in
      let frame = arp_frame dev op target_mac sender_ip target_ip in
      (t.ok ≡ true) × Holds t.queue (ps ++ (record { dev = dev; buffer = frame } ∷ []))
unfolding send_arp_impl transmit_ethernet arp_packet
send_arp_impl-queued driver q ps dev op target_mac sender_ip target_ip big h on room =
    let fits : ltb dev.mtu 28 ≡ false = ground arith in
    let frame = arp_frame dev op target_mac sender_ip target_ip in
    let r =
      queue_packet-Holds driver q ps dev frame h on
        (some_bytes dev op target_mac sender_ip target_ip) room in
    rw fits (ap (λ t. t.ok) r.0, r.1)

-- On a device whose MTU has room for the 28 bytes of an ARP packet and whose driver has a send entry,
-- with the TX task started, fewer than 63 packets in the queue and memory for the frame and its copy:
-- there is one frame that the driver gets when an operation is sent at once, its answer being
-- returned, and that is put behind the packets of the queue when it is queued, which succeeds; and
-- `parse_arp_frame` reads from it the addresses and the operation that were sent.
pub parse_arp_frame-send_arp_impl :
    (driver : Driver) (q : TxQueue) (ps : List QueuedPacket) (dev : Device) (op : ArpOperation)
    (target_mac sender_ip target_ip : ℕ)
    → dev.mac < 256 ^ 6
    → sender_ip < 256 ^ 4
    → target_ip < 256 ^ 4
    → 28 ≤ dev.mtu
    → dev.has_send ≡ true
    → Holds q ps
    → q.started ≡ true
    → length ps < 63
    → let queued = send_arp_impl driver q dev op target_mac sender_ip target_ip true both_blocks in
      (frame : List ℕ) × (send_arp_impl driver q dev op target_mac sender_ip target_ip false
          both_blocks
        ≡ record {
          ok = driver dev frame;
          queue = q;
          handed = some record { dev = dev; buffer = frame };
        })
      × (queued.ok ≡ true)
      × Holds queued.queue (ps ++ (record { dev = dev; buffer = frame } ∷ []))
      × (parse_arp_frame frame ≡ some (arp_fields sender_ip dev.mac target_ip (operation_code op)))
parse_arp_frame-send_arp_impl driver q ps dev op target_mac sender_ip target_ip m s t big sends h on
      room =
    let r = send_arp_impl-queued driver q ps dev op target_mac sender_ip target_ip big h on room in
    (
      arp_frame dev op target_mac sender_ip target_ip,
      send_arp_impl-direct driver q dev op target_mac sender_ip target_ip big sends,
      r.0,
      r.1,
      parse_arp_frame-arp_frame dev op target_mac sender_ip target_ip m s t,
    )
