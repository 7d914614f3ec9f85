-- ===== src/Transport/SecureExamples.antt =====
-- Encryption and the handshake of two transports at concrete states.
use file_hop_z.Base.{ℕ, ◌≡◌, refl, true, false, some, [], ◌∷◌, ◌++◌, arith, replicate}
use file_hop_z.Base.Bytes.{Bytes}
use file_hop_z.Errors.{success}
use file_hop_z.Packet.{Packet, PacketType, content, datagram, received}
use file_hop_z.Crypto.{init, set_peer_public_key, lexicographical_compare, encrypt_data}
use file_hop_z.Crypto.Toy.{toy_ssl-IsDiffieHellman, toy_ssl-IsAead}
use file_hop_z.Host.FixedPoint.{toy_host}
use file_hop_z.Transport.{Transport}
use file_hop_z.Transport.Send.{numbered, send_packet}
use file_hop_z.Transport.Receive.{member, receive_turn}
use file_hop_z.Transport.Handshake.{
  initiator_start, initiator_received, responder_start, responder_received, responder_sent,
  handshake_packet,
}
use file_hop_z.Transport.Channel.{passes, receive_turn-send_packet}
use file_hop_z.Transport.Agreement.{IsRawKey, Exchange, handshake_agree}
use file_hop_z.Transport.Examples.{blank, idle, data_packet}

abbrev session : Bytes
session = 3 ∷ 5 ∷ 8 ∷ []

-- The two ends of an encrypted connection.
abbrev alice : Transport toy_host
alice = record idle {
  connection_encrypted = true;
  crypto_context = record blank {
    is_ready = true;
    key_handle = some 5;
    own_public_key = 5 ∷ [];
    peer_public_key = 3 ∷ [];
    encryption_key = session;
  };
}

abbrev bob : Transport toy_host
bob = record idle {
  connection_encrypted = true;
  received_packets = 4 ∷ [];
  crypto_context = record blank {
    is_ready = true;
    key_handle = some 3;
    own_public_key = 3 ∷ [];
    peer_public_key = 5 ∷ [];
    encryption_key = session;
  };
}

abbrev nonce : Bytes
nonce = replicate 12 9

abbrev stale : Bytes
stale = replicate 40 77

abbrev sealed_packet : Packet
sealed_packet = record {
  header = record { type = PacketType.payload_data; flags = 0; size = 30; sequence = 70000 };
  region = nonce ++ (1 ∷ 2 ∷ replicate 16 7);
}

receive_turn-send_packet_example :
    (r : Packet) × (r.header ≡ (numbered toy_host (data_packet 0) 70000).header)
    × (content r ≡ 1 ∷ 2 ∷ [])
    × (receive_turn toy_host 60 9 (received stale (datagram sealed_packet)) bob
        ≡ passes toy_host 60 9 70000 r bob)
unfolding send_packet encrypt_data member
receive_turn-send_packet_example =
    receive_turn-send_packet toy_host toy_ssl-IsAead nonce stale 1 50 60 9 (data_packet 0)
      sealed_packet alice bob refl refl
      (record {
        header_ok = record {
          type_ok = tt;
          flags_ok = omega arith;
          size_ok = omega arith;
          sequence_ok = omega arith;
        };
        nonempty = omega arith;
        whole = omega arith;
      })
      (record { sends_encrypted = refl; reads_encrypted = refl; ready = refl; agreed = refl }) refl
      refl refl

toy_raw : IsRawKey toy_host
toy_raw = record { raw_length = λ key raw h. ground arith }

abbrev new_alice : Transport toy_host
new_alice = record idle {
  crypto_context = record blank { key_handle = some 5; own_public_key = 5 ∷ [] };
}

abbrev new_bob : Transport toy_host
new_bob = record idle {
  crypto_context = record blank { key_handle = some 3; own_public_key = 3 ∷ [] };
}

abbrev key_of : ℕ → Packet
key_of k = record {
  header = record { type = PacketType.handshake; flags = 0; size = 32; sequence = 70000 };
  region = k ∷ [];
}

abbrev bob_answered : Transport toy_host
bob_answered = record bob { connection_encrypted = false; received_packets = [] }

toy-Exchange :
    Exchange toy_host idle idle new_alice new_bob bob_answered alice
      (record bob { received_packets = [] })
      (handshake_packet (5 ∷ []))
      (handshake_packet (3 ∷ []))
      (key_of 5)
      (key_of 3)
unfolding initiator_start initiator_received responder_start responder_received responder_sent init
    set_peer_public_key lexicographical_compare
toy-Exchange = record {
  draw_a = 5;
  draw_b = 3;
  ec_a = success;
  ec_b = success;
  ec_sent = success;
  a_starts = refl;
  b_starts = refl;
  a_keeps = refl;
  b_keeps = refl;
  a_to_b = refl;
  b_answers = refl;
  b_holds = refl;
  b_to_a = refl;
  a_ends = refl;
  b_ends = refl;
}

handshake_agree_example :
    (alice.connection_encrypted ≡ true)
    × (bob.connection_encrypted ≡ true)
    × (alice.crypto_context.is_ready ≡ true)
    × (bob.crypto_context.is_ready ≡ true)
    × (alice.crypto_context.encryption_key ≡ bob.crypto_context.encryption_key)
handshake_agree_example =
    handshake_agree toy_host toy_ssl-IsDiffieHellman toy_raw idle idle new_alice new_bob
      bob_answered alice (record bob { received_packets = [] }) (handshake_packet (5 ∷ []))
      (handshake_packet (3 ∷ [])) (key_of 5) (key_of 3) toy-Exchange
