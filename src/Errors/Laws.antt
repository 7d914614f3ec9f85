-- ===== src/Errors/Laws.antt =====
-- Which error codes count as failures, and that names and messages tell them apart.
use file_hop_z.Base.{◌≡◌, refl, ap, ◌∙◌, sym, ◌≢◌, ◌↔◌, true, some}
use file_hop_z.Errors.{
  ErrorCode, failed, code_value, enumerator, make_error_code, describe, describe_value, message,
}
use mathlib.Core.Option.{some-injective}

pub enumerator-code_value : (c : ErrorCode) → enumerator (code_value c) ≡ some c
unfolding enumerator
enumerator-code_value ErrorCode.crypto_context_not_ready = refl
enumerator-code_value ErrorCode.crypto_key_generation_failed = refl
enumerator-code_value ErrorCode.crypto_peer_key_failed = refl
enumerator-code_value ErrorCode.crypto_hkdf_failed = refl
enumerator-code_value ErrorCode.crypto_random_failed = refl
enumerator-code_value ErrorCode.crypto_encrypt_failed = refl
enumerator-code_value ErrorCode.crypto_decrypt_failed = refl
enumerator-code_value ErrorCode.crypto_ciphertext_too_short = refl
enumerator-code_value ErrorCode.loops_not_running = refl
enumerator-code_value ErrorCode.packet_too_large = refl
enumerator-code_value ErrorCode.invalid_handshake_key_size = refl
enumerator-code_value ErrorCode.transport_encrypt_failed = refl
enumerator-code_value ErrorCode.transport_decrypt_failed = refl
enumerator-code_value ErrorCode.stream_payload_too_large = refl
enumerator-code_value ErrorCode.connection_idle_timeout = refl
enumerator-code_value ErrorCode.malformed_packet = refl
enumerator-code_value ErrorCode.receiver_refused_transfer = refl
enumerator-code_value ErrorCode.unknown_packet_type = refl
enumerator-code_value ErrorCode.transfer_size_exceeded = refl
enumerator-code_value ErrorCode.premature_end_transfer = refl
enumerator-code_value ErrorCode.unsupported_file_type = refl
enumerator-code_value ErrorCode.symlink_payload_too_large = refl
enumerator-code_value ErrorCode.malformed_symlink_payload = refl
enumerator-code_value ErrorCode.unknown_file_id = refl
enumerator-code_value ErrorCode.file_open_failed = refl
enumerator-code_value ErrorCode.file_write_failed = refl

-- An error code, converted to an error value, is seen by `if(ec)` exactly when it is not the first
-- enumerator: `crypto_context_not_ready` has the number zero and passes for success.
pub failed-make_error_code :
    (c : ErrorCode) → (failed (make_error_code c) ≡ true) ↔ (c ≢ ErrorCode.crypto_context_not_ready)
unfolding make_error_code
failed-make_error_code ErrorCode.crypto_context_not_ready = (λ e. cc, λ h. absurd (h refl))
failed-make_error_code ErrorCode.crypto_key_generation_failed = (λ e. λ q. cc, λ h. refl)
failed-make_error_code ErrorCode.crypto_peer_key_failed = (λ e. λ q. cc, λ h. refl)
failed-make_error_code ErrorCode.crypto_hkdf_failed = (λ e. λ q. cc, λ h. refl)
failed-make_error_code ErrorCode.crypto_random_failed = (λ e. λ q. cc, λ h. refl)
failed-make_error_code ErrorCode.crypto_encrypt_failed = (λ e. λ q. cc, λ h. refl)
failed-make_error_code ErrorCode.crypto_decrypt_failed = (λ e. λ q. cc, λ h. refl)
failed-make_error_code ErrorCode.crypto_ciphertext_too_short = (λ e. λ q. cc, λ h. refl)
failed-make_error_code ErrorCode.loops_not_running = (λ e. λ q. cc, λ h. refl)
failed-make_error_code ErrorCode.packet_too_large = (λ e. λ q. cc, λ h. refl)
failed-make_error_code ErrorCode.invalid_handshake_key_size = (λ e. λ q. cc, λ h. refl)
failed-make_error_code ErrorCode.transport_encrypt_failed = (λ e. λ q. cc, λ h. refl)
failed-make_error_code ErrorCode.transport_decrypt_failed = (λ e. λ q. cc, λ h. refl)
failed-make_error_code ErrorCode.stream_payload_too_large = (λ e. λ q. cc, λ h. refl)
failed-make_error_code ErrorCode.connection_idle_timeout = (λ e. λ q. cc, λ h. refl)
failed-make_error_code ErrorCode.malformed_packet = (λ e. λ q. cc, λ h. refl)
failed-make_error_code ErrorCode.receiver_refused_transfer = (λ e. λ q. cc, λ h. refl)
failed-make_error_code ErrorCode.unknown_packet_type = (λ e. λ q. cc, λ h. refl)
failed-make_error_code ErrorCode.transfer_size_exceeded = (λ e. λ q. cc, λ h. refl)
failed-make_error_code ErrorCode.premature_end_transfer = (λ e. λ q. cc, λ h. refl)
failed-make_error_code ErrorCode.unsupported_file_type = (λ e. λ q. cc, λ h. refl)
failed-make_error_code ErrorCode.symlink_payload_too_large = (λ e. λ q. cc, λ h. refl)
failed-make_error_code ErrorCode.malformed_symlink_payload = (λ e. λ q. cc, λ h. refl)
failed-make_error_code ErrorCode.unknown_file_id = (λ e. λ q. cc, λ h. refl)
failed-make_error_code ErrorCode.file_open_failed = (λ e. λ q. cc, λ h. refl)
failed-make_error_code ErrorCode.file_write_failed = (λ e. λ q. cc, λ h. refl)

-- The message of a converted error code is its own description, never the fallback of the switch,
-- and two error codes with one number are the same.
pub message-make_error_code :
    (c d : ErrorCode)
    → (message (make_error_code c).value ≡ describe c)
      × ((make_error_code c).value ≡ (make_error_code d).value → c ≡ d)
unfolding message make_error_code
message-make_error_code c d = (
  ap describe_value (enumerator-code_value c),
  λ e.
      some-injective c d
        (sym (enumerator-code_value c) ∙ ap enumerator e ∙ enumerator-code_value d),
)
