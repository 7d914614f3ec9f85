-- ===== src/Errors/Examples.antt =====
-- The error codes at concrete values.
use file_hop_z.Base.{◌≡◌, ◌≢◌, ◌↔◌, true}
use file_hop_z.Errors.{ErrorCode, failed, make_error_code}
use file_hop_z.Errors.Laws.{failed-make_error_code}

failed-make_error_code_example :
    (failed (make_error_code ErrorCode.malformed_packet) ≡ true)
    ↔ (ErrorCode.malformed_packet ≢ ErrorCode.crypto_context_not_ready)
failed-make_error_code_example = failed-make_error_code ErrorCode.malformed_packet
