-- ===== src/Net/Icmp.antt =====
-- ICMP echoes: `send_echo` and `observe_packet` of src/net/icmp.cpp. A packet is its bytes, and what
-- IPv4 makes of it, or the log, is not modelled.
use vkernel.Common.{
  ℕ, ◌+◌, ◌-◌, ◌%◌, ◌^◌, Bool, ◌||◌, not, List, ◌∷◌, ◌++◌, ◌==◌, if◌then◌else◌, ltb, length, drop,
}
use vkernel.Net.Arp.Frame.{to_bytes, field}
use vkernel.Net.Checksum.{internet_checksum}

pub data EchoType : Type 0 where
  echo_reply echo_request : EchoType

abbrev pub echo_code : EchoType → ℕ
echo_code EchoType.echo_reply = 0
echo_code EchoType.echo_request = 8

abbrev pub icmp_header_bytes : ℕ
icmp_header_bytes = 4

abbrev pub echo_header_bytes : ℕ
echo_header_bytes = 8

-- The bytes, with a checksum.
abbrev pub echo_bytes : EchoType → ℕ → ℕ → ℕ → List ℕ → List ℕ
echo_bytes type checksum identifier sequence payload =
    echo_code type ∷ 0 ∷ to_bytes 2 checksum
    ++ (to_bytes 2 identifier ++ (to_bytes 2 sequence ++ payload))

-- What `send_echo` hands to IPv4: nothing, a packet, or memory that the copy of the payload has run
-- over, where the 16-bit length of the packet wraps.
pub data Sending : Type 0 where
  refused : Sending
  overrun : Sending
  packet : List ℕ → Sending

unfoldable pub send_echo : EchoType → ℕ → ℕ → List ℕ → Bool → Sending
send_echo type identifier sequence payload allocated =
    let packet_length = (echo_header_bytes + length payload) % 2 ^ 16 in
    if not allocated
    then Sending.refused
    else (if ltb packet_length (echo_header_bytes + length payload)
        then Sending.overrun
        else Sending.packet (
            echo_bytes type (internet_checksum (echo_bytes type 0 identifier sequence payload))
              identifier sequence payload))

-- What `observe_packet` does: it leaves the packet to others, drops it, answers, or reports it.
pub data Reaction : Type 0 where
  not_taken : Reaction
  bad_checksum : Reaction
  malformed : Reaction
  answered : Sending → Reaction
  reply_from : ℕ → ℕ → ℕ → Reaction
  other : ℕ → Reaction

unfoldable pub observe_packet : List ℕ → Bool → Reaction
unfolding send_echo
observe_packet bytes allocated =
    let type = field bytes 0 1 in
    let bad = not (field bytes 1 1 == 0) || ltb (length bytes) echo_header_bytes in
    if ltb (length bytes) icmp_header_bytes
    then Reaction.not_taken
    else (if not (internet_checksum bytes == 0)
        then Reaction.bad_checksum
        else (if type == echo_code EchoType.echo_request
            then (if bad
                then Reaction.malformed
                else Reaction.answered (
                    send_echo EchoType.echo_reply (field bytes 4 2) (field bytes 6 2)
                      (drop echo_header_bytes bytes) allocated))
            else (if type == echo_code EchoType.echo_reply
                then (if bad
                    then Reaction.malformed
                    else Reaction.reply_from (field bytes 4 2) (field bytes 6 2)
                        (length bytes - echo_header_bytes))
                else Reaction.other type)))
