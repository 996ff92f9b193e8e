-- ===== src/Net/TransmitQueue.antt =====
-- The TX queue of src/net/net.cpp against its contract: a queue of at most 63 packets, first in,
-- first out.
use vkernel.Common.Arrays.{put_same, put_other}
use vkernel.Common.{
  ℕ, zero, suc, ◌+◌, ◌%◌, ◌<◌, ◌≡◌, refl, true, false, Option, none, some, List, [], ◌∷◌, ◌++◌,
  ◌==◌, if◌then◌else◌, length, get_elem?, arith, ==_cases, inl, inr, ==_of_ne, ==_refl, ap, ==_iff,
  ◌⊎◌, length-append, ◌∙◌, sym, subst,
}
use vkernel.Net.Transmit.{
  Device, Driver, QueuedPacket, TxQueue, tx_queue_capacity, tx_queue_full, refused, send_packet,
  enqueue, queue_packet, take_packet, send_entry, background_tx_task,
}

-- The slots from the tail up to the head hold the packets, the oldest first.
pub record Holds (q : TxQueue) (packets : List QueuedPacket) : Type 0 where
  pub tail_within : q.tail < tx_queue_capacity
  pub few : length packets < tx_queue_capacity
  pub head_at : q.head ≡ (q.tail + length packets) % tx_queue_capacity
  pub in_slot :
      (i : ℕ) (p : QueuedPacket)
      → get_elem? packets i ≡ some p
      → q.slots ((q.tail + i) % tx_queue_capacity) ≡ some p

get_elem?-lt :
    (ps : List QueuedPacket) (i : ℕ) (p : QueuedPacket) → get_elem? ps i ≡ some p → i < length ps
get_elem?-lt [] i p e = absurd (cc)
get_elem?-lt (x ∷ ps) zero p e = omega arith
get_elem?-lt (x ∷ ps) (suc i) p e = omega (arith, get_elem?-lt ps i p e)

-- An element of a list with one more at its end.
get_elem?-append :
    (ps : List QueuedPacket) (x : QueuedPacket) (i : ℕ)
    → get_elem? (ps ++ (x ∷ [])) i ≡ (if i == length ps then some x else get_elem? ps i)
get_elem?-append [] x zero = refl
get_elem?-append [] x (suc i) = let e : (suc i == 0) ≡ false = ground arith in rw e refl
get_elem?-append (y ∷ ps) x zero =
    let e : (0 == suc (length ps)) ≡ false = ground arith in rw e refl
get_elem?-append (y ∷ ps) x (suc i) =
    let e : (suc i == suc (length ps)) ≡ (i == length ps) = ground arith in
    rw e (get_elem?-append ps x i)

enqueue-Holds :
    (q : TxQueue) (ps : List QueuedPacket) (dev : Device) (packet : List ℕ)
    → Holds q ps
    → length ps < 63
    → Holds (enqueue q dev packet) (ps ++ (record { dev = dev; buffer = packet } ∷ []))
enqueue-Holds q ps dev packet h room =
    let x : QueuedPacket = record { dev = dev; buffer = packet } in
    let l = length-append ps (x ∷ []) in
    let at = h.head_at in
    let within = h.tail_within in
    record {
      tail_within = within;
      few = omega arith;
      head_at = omega arith;
      in_slot = λ i p e. elim (==_cases i (length ps)) [
        | inl last ↦
            let slot : (q.tail + i) % tx_queue_capacity ≡ q.head = omega arith in
            let found = sym (get_elem?-append ps x i) ∙ e in
            put_same q.slots q.head ((q.tail + i) % tx_queue_capacity) (some x) slot
            ∙ (rw (last, ==_refl (length ps)) at found)
        | inr before ↦
            let found : get_elem? ps i ≡ some p =
              rw (==_of_ne i (length ps) before) at (sym (get_elem?-append ps x i) ∙ e) in
            let lt = get_elem?-lt ps i p found in
            put_other q.slots q.head ((q.tail + i) % tx_queue_capacity) (some x)
              (λ same. absurd (omega arith))
            ∙ h.in_slot i p found
      ];
    }

take_packet-first :
    (q : TxQueue) (p : QueuedPacket) (ps : List QueuedPacket)
    → Holds q (p ∷ ps)
    → ((take_packet q).0 ≡ some p) × Holds (take_packet q).1 ps
unfolding take_packet
take_packet-first q p ps h =
    let at = h.head_at in
    let within = h.tail_within in
    let few = h.few in
    let busy : (q.head == q.tail) ≡ false = ==_of_ne q.head q.tail (omega arith) in
    let first : (q.tail + 0) % tx_queue_capacity ≡ q.tail = omega arith in
    rw busy (
      sym (ap q.slots first) ∙ h.in_slot 0 p refl,
      record {
        tail_within = omega arith;
        few = omega arith;
        head_at = omega arith;
        in_slot = λ i x e.
            let lt = get_elem?-lt ps i x e in
            let next : ((q.tail + 1) % tx_queue_capacity + i) % tx_queue_capacity
                ≡ (q.tail + suc i) % tx_queue_capacity =
              omega arith in
            put_other q.slots q.tail (((q.tail + 1) % tx_queue_capacity + i) % tx_queue_capacity)
              none (λ same. absurd (omega arith))
            ∙ ap q.slots next
            ∙ h.in_slot (suc i) x e;
      },
    )

send_packet-queue :
    (driver : Driver) (q : TxQueue) (dev : Device) (packet : List ℕ)
    → (send_packet driver q dev packet).queue ≡ q
unfolding send_packet
send_packet-queue driver q dev packet = ground arith

send_entry-some :
    (driver : Driver) (t : Option QueuedPacket × TxQueue) (p : QueuedPacket)
    → t.0 ≡ some p
    → send_entry driver t ≡ send_packet driver t.1 p.dev p.buffer
unfolding send_entry
send_entry-some driver (none, q) p e = absurd (cc)
send_entry-some driver (some x, q) p e =
    let same : x ≡ p = cc in ap (λ y. send_packet driver q y.dev y.buffer) same

-- A round takes the oldest packet and sends it.
background_tx_task-first :
    (driver : Driver) (q : TxQueue) (p : QueuedPacket) (ps : List QueuedPacket)
    → Holds q (p ∷ ps)
    → (q' : TxQueue) × (background_tx_task driver q ≡ send_packet driver q' p.dev p.buffer)
      × Holds q' ps
unfolding background_tx_task
background_tx_task-first driver q p ps h =
    let t = take_packet-first q p ps h in
    ((take_packet q).1, send_entry-some driver (take_packet q) p t.0, t.1)

-- So many rounds of the TX task.
abbrev pub tx_rounds : Driver → ℕ → TxQueue → TxQueue
tx_rounds driver zero q = q
tx_rounds driver (suc n) q = tx_rounds driver n (background_tx_task driver q).queue

tx_rounds-Holds :
    (driver : Driver) (q : TxQueue) (before after : List QueuedPacket)
    → Holds q (before ++ after)
    → Holds (tx_rounds driver (length before) q) after
tx_rounds-Holds driver q [] after h = h
tx_rounds-Holds driver q (p ∷ before) after h =
    let r = background_tx_task-first driver q p (before ++ after) h in
    let e : (background_tx_task driver q).queue ≡ r.0 =
      ap (λ t. t.queue) r.1 ∙ send_packet-queue driver r.0 p.dev p.buffer in
    subst (λ s. Holds (tx_rounds driver (length before) s) after) (sym e)
      (tx_rounds-Holds driver r.0 before after r.2)

-- The last packet of the queue reaches its driver once those in front of it have been taken.
pub background_tx_task-last :
    (driver : Driver) (q : TxQueue) (ps : List QueuedPacket) (dev : Device) (packet : List ℕ)
    → Holds q (ps ++ (record { dev = dev; buffer = packet } ∷ []))
    → 0 < length packet
    → dev.has_send ≡ true
    → (background_tx_task driver (tx_rounds driver (length ps) q)).handed
      ≡ some record { dev = dev; buffer = packet }
unfolding send_packet
background_tx_task-last driver q ps dev packet h some_bytes sends =
    let x : QueuedPacket = record { dev = dev; buffer = packet } in
    let t =
      background_tx_task-first driver (tx_rounds driver (length ps) q) x []
        (tx_rounds-Holds driver q ps (x ∷ []) h) in
    let a : (length packet == 0) ≡ false = ==_of_ne (length packet) 0 (omega arith) in
    ap (λ m. m.handed) t.1 ∙ rw (a, sends) refl

-- With the TX task started and fewer than 63 packets in the queue, a packet is queued behind them.
pub queue_packet-Holds :
    (driver : Driver) (q : TxQueue) (ps : List QueuedPacket) (dev : Device) (packet : List ℕ)
    → Holds q ps
    → q.started ≡ true
    → 0 < length packet
    → length ps < 63
    → (queue_packet driver q dev packet true
        ≡ record { ok = true; queue = enqueue q dev packet; handed = none })
      × Holds
          (queue_packet driver q dev packet true).queue
          (ps ++ (record { dev = dev; buffer = packet } ∷ []))
unfolding queue_packet
queue_packet-Holds driver q ps dev packet h on some_bytes room =
    let at = h.head_at in
    let within = h.tail_within in
    let a : (length packet == 0) ≡ false = ==_of_ne (length packet) 0 (omega arith) in
    let b : tx_queue_full q ≡ false =
      ==_of_ne ((q.head + 1) % tx_queue_capacity) q.tail (omega arith) in
    let e : queue_packet driver q dev packet true
        ≡ record { ok = true; queue = enqueue q dev packet; handed = none } =
      simp (a, on, b) refl in
    (
      e,
      subst (λ t. Holds t.queue (ps ++ (record { dev = dev; buffer = packet } ∷ []))) (sym e)
          (enqueue-Holds q ps dev packet h room),
    )

queue_packet-full :
    (driver : Driver) (q : TxQueue) (ps : List QueuedPacket) (dev : Device) (packet : List ℕ)
    → Holds q ps
    → q.started ≡ true
    → 0 < length packet
    → length ps ≡ 63
    → queue_packet driver q dev packet true ≡ refused q
unfolding queue_packet
queue_packet-full driver q ps dev packet h on some_bytes full =
    let at = h.head_at in
    let within = h.tail_within in
    let a : (length packet == 0) ≡ false = ==_of_ne (length packet) 0 (omega arith) in
    let wrapped : (q.head + 1) % tx_queue_capacity ≡ q.tail = omega arith in
    let b : tx_queue_full q ≡ true = (==_iff ((q.head + 1) % tx_queue_capacity) q.tail).1 wrapped in
    rw (a, on, b) refl

-- With the TX task started, memory for the copy, and a device that has a send entry: a packet of at
-- least one byte is refused, and nothing changes, exactly when 63 packets wait. Otherwise the call
-- succeeds, and once as many rounds of the TX task have run as there were packets waiting, the next
-- round hands this very packet to its driver.
pub queue_packet-background_tx_task :
    (driver : Driver) (q : TxQueue) (ps : List QueuedPacket) (dev : Device) (packet : List ℕ)
    → Holds q ps
    → q.started ≡ true
    → 0 < length packet
    → dev.has_send ≡ true
    → let r = queue_packet driver q dev packet true in
      ((length ps < 63)
        × (r.ok ≡ true)
        × ((background_tx_task driver (tx_rounds driver (length ps) r.queue)).handed
            ≡ some record { dev = dev; buffer = packet }))
      ⊎ ((length ps ≡ 63) × (r ≡ refused q))
queue_packet-background_tx_task driver q ps dev packet h on some_bytes sends =
    elim (==_cases (length ps) 63) [
      | inl full ↦ inr (full, queue_packet-full driver q ps dev packet h on some_bytes full)
      | inr more ↦
          let few = h.few in
          let room : length ps < 63 = omega arith in
          let r = queue_packet-Holds driver q ps dev packet h on some_bytes room in
          inl (
            room,
            ap (λ m. m.ok) r.0,
            background_tx_task-last driver (queue_packet driver q dev packet true).queue ps dev
                packet r.1 some_bytes sends,
          )
    ]
