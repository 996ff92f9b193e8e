-- ===== src/Net/Ping.antt =====
-- An echo request from one kernel to another, and the reply to it.
use vkernel.Common.{
  ℕ, suc, ◌+◌, ◌-◌, ◌*◌, ◌/◌, ◌%◌, ◌^◌, ◌≤◌, ◌<◌, ◌≡◌, refl, true, false, List, ◌++◌, arith, ltb,
  length, ap, ◌∙◌,
}
use vkernel.Net.Arp.Frame.{to_bytes}
use vkernel.Net.Arp.Parsing.{of_bytes-to_bytes}
use vkernel.Net.Checksum.{
  add_word, sum_from, internet_checksum, Bytes, sum_from_le, sum_from_complement,
}
use vkernel.Net.Icmp.{EchoType, echo_code, echo_bytes, Sending, send_echo, Reaction, observe_packet}

-- The bytes behind the checksum.
abbrev behind_checksum : ℕ → ℕ → List ℕ → List ℕ
behind_checksum identifier sequence payload =
    to_bytes 2 identifier ++ (to_bytes 2 sequence ++ payload)

behind_checksum-Bytes :
    (identifier sequence : ℕ) (payload : List ℕ)
    → Bytes payload
    → Bytes (behind_checksum identifier sequence payload)
behind_checksum-Bytes identifier sequence payload h =
    (omega arith, (omega arith, (omega arith, (omega arith, h))))

echo_code_lt : (type : EchoType) → echo_code type < 256
echo_code_lt EchoType.echo_reply = omega arith
echo_code_lt EchoType.echo_request = omega arith

first_word_le : (type : EchoType) → add_word 0 (echo_code type * 256 + 0) ≤ 0xFFFF
unfolding add_word
first_word_le EchoType.echo_reply = omega arith
first_word_le EchoType.echo_request = omega arith

sum_from-echo_bytes :
    (type : EchoType) (checksum identifier sequence : ℕ) (payload : List ℕ)
    → checksum ≤ 0xFFFF
    → sum_from 0 (echo_bytes type checksum identifier sequence payload)
      ≡ sum_from
          (add_word (add_word 0 (echo_code type * 256 + 0)) checksum)
          (behind_checksum identifier sequence payload)
unfolding sum_from
sum_from-echo_bytes type checksum identifier sequence payload h =
    let e : checksum / 256 % 256 * 256 + checksum % 256 ≡ checksum = omega arith in
    ap
      (λ w.
        sum_from (add_word (add_word 0 (echo_code type * 256 + 0)) w)
          (behind_checksum identifier sequence payload))
      e

-- The checksum of a packet that carries its own.
echo_bytes_sum :
    (type : EchoType) (identifier sequence : ℕ) (payload : List ℕ)
    → Bytes payload
    → internet_checksum (
        echo_bytes type
          (internet_checksum (echo_bytes type 0 identifier sequence payload))
          identifier
          sequence
          payload)
      ≡ 0
unfolding internet_checksum
echo_bytes_sum type identifier sequence payload h =
    let a = add_word 0 (echo_code type * 256 + 0) in
    let rest = behind_checksum identifier sequence payload in
    let hb = behind_checksum-Bytes identifier sequence payload h in
    let s0 = sum_from-echo_bytes type 0 identifier sequence payload (omega arith) in
    let ck = internet_checksum (echo_bytes type 0 identifier sequence payload) in
    let le : sum_from 0 (echo_bytes type 0 identifier sequence payload) ≤ 0xFFFF =
      sum_from_le 0 (echo_bytes type 0 identifier sequence payload) (omega arith)
        (echo_code_lt type, (omega arith, (omega arith, (omega arith, hb)))) in
    let small : ck ≤ 0xFFFF = omega arith in
    let e : ck ≡ 0xFFFF - sum_from (add_word a 0) rest = omega (arith, s0, le) in
    let full =
      sum_from-echo_bytes type ck identifier sequence payload small
      ∙ sum_from_complement a ck rest (first_word_le type) hb e in
    rw full refl

-- The packet with its checksum.
abbrev carried : EchoType → ℕ → ℕ → List ℕ → List ℕ
carried type identifier sequence payload =
    echo_bytes type (internet_checksum (echo_bytes type 0 identifier sequence payload)) identifier
      sequence payload

send_echo-carried :
    (type : EchoType) (identifier sequence : ℕ) (payload : List ℕ)
    → length payload < 65528
    → send_echo type identifier sequence payload true
      ≡ Sending.packet (carried type identifier sequence payload)
unfolding send_echo
send_echo-carried type identifier sequence payload len =
    let fits : ltb ((8 + length payload) % 2 ^ 16) (8 + length payload) ≡ false = ground arith in
    rw fits refl

-- Eight bytes and more.
long_enough :
    (n : ℕ)
    → (ltb (suc (suc (suc (suc (suc (suc (suc (suc n)))))))) 4 ≡ false)
      × (ltb (suc (suc (suc (suc (suc (suc (suc (suc n)))))))) 8 ≡ false)
long_enough n = (ground arith, ground arith)

observe_packet-request :
    (identifier sequence : ℕ) (payload : List ℕ)
    → identifier < 2 ^ 16
    → sequence < 2 ^ 16
    → Bytes payload
    → observe_packet (carried EchoType.echo_request identifier sequence payload) true
      ≡ Reaction.answered (send_echo EchoType.echo_reply identifier sequence payload true)
unfolding observe_packet
observe_packet-request identifier sequence payload ib sb h =
    let sum = echo_bytes_sum EchoType.echo_request identifier sequence payload h in
    let i = of_bytes-to_bytes 2 identifier ib in
    let s = of_bytes-to_bytes 2 sequence sb in
    let l = long_enough (length payload) in rw (l.0, sum, l.1, i, s) refl

observe_packet-reply :
    (identifier sequence : ℕ) (payload : List ℕ)
    → identifier < 2 ^ 16
    → sequence < 2 ^ 16
    → Bytes payload
    → observe_packet (carried EchoType.echo_reply identifier sequence payload) true
      ≡ Reaction.reply_from identifier sequence (length payload)
unfolding observe_packet
observe_packet-reply identifier sequence payload ib sb h =
    let sum = echo_bytes_sum EchoType.echo_reply identifier sequence payload h in
    let i = of_bytes-to_bytes 2 identifier ib in
    let s = of_bytes-to_bytes 2 sequence sb in
    let l = long_enough (length payload) in
    rw (l.0, sum, l.1, i, s) (ap (Reaction.reply_from identifier sequence) (omega arith))

-- A request with fewer than 65528 bytes, sent and answered with memory for it, comes back as a reply
-- with the identifier, the sequence number and the number of bytes that were sent.
pub observe_packet-send_echo :
    (identifier sequence : ℕ) (payload : List ℕ)
    → identifier < 2 ^ 16
    → sequence < 2 ^ 16
    → Bytes payload
    → length payload < 65528
    → (request : List ℕ) × (reply : List ℕ) × (send_echo EchoType.echo_request identifier sequence
          payload true
        ≡ Sending.packet request)
      × (observe_packet request true ≡ Reaction.answered (Sending.packet reply))
      × (observe_packet reply true ≡ Reaction.reply_from identifier sequence (length payload))
observe_packet-send_echo identifier sequence payload ib sb h len = (
  carried EchoType.echo_request identifier sequence payload,
  carried EchoType.echo_reply identifier sequence payload,
  send_echo-carried EchoType.echo_request identifier sequence payload len,
  observe_packet-request identifier sequence payload ib sb h
      ∙ ap Reaction.answered
          (send_echo-carried EchoType.echo_reply identifier sequence payload len),
  observe_packet-reply identifier sequence payload ib sb h,
)
