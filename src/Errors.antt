-- ===== src/Errors.antt =====
-- include/errors/filehopz_error.hpp and src/errors/filehopz_error.cpp: the program's error codes,
-- and the Boost.System value that they are turned into.
pub mod Laws
mod Examples
use Prim.Native.String.{String}
use file_hop_z.Base.{
  ℕ, ◌≡◌, Bool, true, false, not, ◌&&◌, Option, none, some, ◌==◌, if◌then◌else◌, ◌⊎◌, inl, inr,
  refl,
}

-- `enum class Error_code`, in the order of its enumerators.
pub data ErrorCode : Type 0 where
  crypto_context_not_ready : ErrorCode
  crypto_key_generation_failed : ErrorCode
  crypto_peer_key_failed : ErrorCode
  crypto_hkdf_failed : ErrorCode
  crypto_random_failed : ErrorCode
  crypto_encrypt_failed : ErrorCode
  crypto_decrypt_failed : ErrorCode
  crypto_ciphertext_too_short : ErrorCode
  loops_not_running : ErrorCode
  packet_too_large : ErrorCode
  invalid_handshake_key_size : ErrorCode
  transport_encrypt_failed : ErrorCode
  transport_decrypt_failed : ErrorCode
  stream_payload_too_large : ErrorCode
  connection_idle_timeout : ErrorCode
  malformed_packet : ErrorCode
  receiver_refused_transfer : ErrorCode
  unknown_packet_type : ErrorCode
  transfer_size_exceeded : ErrorCode
  premature_end_transfer : ErrorCode
  unsupported_file_type : ErrorCode
  symlink_payload_too_large : ErrorCode
  malformed_symlink_payload : ErrorCode
  unknown_file_id : ErrorCode
  file_open_failed : ErrorCode
  file_write_failed : ErrorCode

-- The categories that the program's error values come from.
pub data Category : Type 0 where
  system_category : Category
  generic_category : Category
  filehopz_category : Category

-- `boost::system::error_code`: a number within a category.
pub record BoostError : Type 0 where
  pub value : ℕ
  pub category : Category

-- `boost::system::error_code{}`
abbrev pub success : BoostError
success = record { value = 0; category = Category.system_category }

-- `if(ec)`: Boost's conversion to `bool`. The program's category does not override `failed`, so
-- an error value is a failure exactly when its number is not zero.
abbrev pub failed : BoostError → Bool
failed ec = not (ec.value == 0)

abbrev same_category : Category → Category → Bool
same_category Category.system_category Category.system_category = true
same_category Category.generic_category Category.generic_category = true
same_category Category.filehopz_category Category.filehopz_category = true
same_category _ _ = false

-- `ec == other`
abbrev pub same_error : BoostError → BoostError → Bool
same_error a b = a.value == b.value && same_category a.category b.category

-- `std::expected<T, boost::system::error_code>`
pub data Expected {ℓ} (A : Type ℓ) : Type ℓ where
  ok : A → Expected A
  unexpected : BoostError → Expected A

-- `static_cast<int>(code)`: the enumerators have no initialisers and count from zero.
abbrev pub code_value : ErrorCode → ℕ
code_value ErrorCode.crypto_context_not_ready = 0
code_value ErrorCode.crypto_key_generation_failed = 1
code_value ErrorCode.crypto_peer_key_failed = 2
code_value ErrorCode.crypto_hkdf_failed = 3
code_value ErrorCode.crypto_random_failed = 4
code_value ErrorCode.crypto_encrypt_failed = 5
code_value ErrorCode.crypto_decrypt_failed = 6
code_value ErrorCode.crypto_ciphertext_too_short = 7
code_value ErrorCode.loops_not_running = 8
code_value ErrorCode.packet_too_large = 9
code_value ErrorCode.invalid_handshake_key_size = 10
code_value ErrorCode.transport_encrypt_failed = 11
code_value ErrorCode.transport_decrypt_failed = 12
code_value ErrorCode.stream_payload_too_large = 13
code_value ErrorCode.connection_idle_timeout = 14
code_value ErrorCode.malformed_packet = 15
code_value ErrorCode.receiver_refused_transfer = 16
code_value ErrorCode.unknown_packet_type = 17
code_value ErrorCode.transfer_size_exceeded = 18
code_value ErrorCode.premature_end_transfer = 19
code_value ErrorCode.unsupported_file_type = 20
code_value ErrorCode.symlink_payload_too_large = 21
code_value ErrorCode.malformed_symlink_payload = 22
code_value ErrorCode.unknown_file_id = 23
code_value ErrorCode.file_open_failed = 24
code_value ErrorCode.file_write_failed = 25

-- The implicit conversion of an enumerator to an error value.
unfoldable pub make_error_code : ErrorCode → BoostError
make_error_code code = record { value = code_value code; category = Category.filehopz_category }

-- `Filehopz_error_category::message`, on the enumerators: the cases of its switch.
unfoldable pub describe : ErrorCode → String
describe ErrorCode.crypto_context_not_ready =
    "crypto context is not ready: handshake did not finish before encryption or decryption"
describe ErrorCode.crypto_key_generation_failed =
    "failed to generate local crypto key material with OpenSSL"
describe ErrorCode.crypto_peer_key_failed =
    "failed to accept peer public key or derive shared X25519 secret"
describe ErrorCode.crypto_hkdf_failed = "failed to derive session encryption key with HKDF"
describe ErrorCode.crypto_random_failed = "failed to generate cryptographic random nonce"
describe ErrorCode.crypto_encrypt_failed = "failed to encrypt packet payload with ChaCha20-Poly1305"
describe ErrorCode.crypto_decrypt_failed =
    "failed to decrypt or authenticate packet payload; data may be corrupted or keys do not match"
describe ErrorCode.crypto_ciphertext_too_short =
    "encrypted packet is too short to contain nonce, payload and authentication tag"
describe ErrorCode.loops_not_running =
    "transport loops are not running; protocol operation cannot continue"
describe ErrorCode.packet_too_large = "packet size exceeds FileHopZ protocol limit"
describe ErrorCode.invalid_handshake_key_size =
    "handshake packet contains public key with unexpected size"
describe ErrorCode.transport_encrypt_failed = "transport failed to encrypt outgoing packet"
describe ErrorCode.transport_decrypt_failed = "transport failed to decrypt incoming packet"
describe ErrorCode.stream_payload_too_large =
    "stream payload is larger than one FileHopZ transport packet"
describe ErrorCode.connection_idle_timeout =
    "connection timed out: no packets received from peer for 30 seconds"
describe ErrorCode.malformed_packet =
    "received malformed FileHopZ packet; sender and receiver may use incompatible versions or data is corrupted"
describe ErrorCode.receiver_refused_transfer = "receiver refused the file transfer"
describe ErrorCode.unknown_packet_type = "received unknown FileHopZ file-transfer packet type"
describe ErrorCode.transfer_size_exceeded =
    "sender attempted to send more file data than was announced before transfer"
describe ErrorCode.premature_end_transfer =
    "sender ended transfer before all announced file data was received"
describe ErrorCode.unsupported_file_type = "input contains unsupported filesystem entry type"
describe ErrorCode.symlink_payload_too_large =
    "symlink path and target are too large for one FileHopZ file-transfer packet"
describe ErrorCode.malformed_symlink_payload = "received malformed symlink packet payload"
describe ErrorCode.unknown_file_id =
    "packet references unknown file id; file was not opened or was already closed"
describe ErrorCode.file_open_failed = "failed to open destination or source file"
describe ErrorCode.file_write_failed = "failed to write destination file data"

-- `error_name`
unfoldable pub error_name : ErrorCode → String
error_name ErrorCode.crypto_context_not_ready = "crypto_context_not_ready"
error_name ErrorCode.crypto_key_generation_failed = "crypto_key_generation_failed"
error_name ErrorCode.crypto_peer_key_failed = "crypto_peer_key_failed"
error_name ErrorCode.crypto_hkdf_failed = "crypto_hkdf_failed"
error_name ErrorCode.crypto_random_failed = "crypto_random_failed"
error_name ErrorCode.crypto_encrypt_failed = "crypto_encrypt_failed"
error_name ErrorCode.crypto_decrypt_failed = "crypto_decrypt_failed"
error_name ErrorCode.crypto_ciphertext_too_short = "crypto_ciphertext_too_short"
error_name ErrorCode.loops_not_running = "loops_not_running"
error_name ErrorCode.packet_too_large = "packet_too_large"
error_name ErrorCode.invalid_handshake_key_size = "invalid_handshake_key_size"
error_name ErrorCode.transport_encrypt_failed = "transport_encrypt_failed"
error_name ErrorCode.transport_decrypt_failed = "transport_decrypt_failed"
error_name ErrorCode.stream_payload_too_large = "stream_payload_too_large"
error_name ErrorCode.connection_idle_timeout = "connection_idle_timeout"
error_name ErrorCode.malformed_packet = "malformed_packet"
error_name ErrorCode.receiver_refused_transfer = "receiver_refused_transfer"
error_name ErrorCode.unknown_packet_type = "unknown_packet_type"
error_name ErrorCode.transfer_size_exceeded = "transfer_size_exceeded"
error_name ErrorCode.premature_end_transfer = "premature_end_transfer"
error_name ErrorCode.unsupported_file_type = "unsupported_file_type"
error_name ErrorCode.symlink_payload_too_large = "symlink_payload_too_large"
error_name ErrorCode.malformed_symlink_payload = "malformed_symlink_payload"
error_name ErrorCode.unknown_file_id = "unknown_file_id"
error_name ErrorCode.file_open_failed = "file_open_failed"
error_name ErrorCode.file_write_failed = "file_write_failed"

-- `static_cast<Error_code>(value)`, where it names an enumerator.
unfoldable pub enumerator : ℕ → Option ErrorCode
enumerator v =
    if v == 0
    then some ErrorCode.crypto_context_not_ready
    else if v == 1
    then some ErrorCode.crypto_key_generation_failed
    else if v == 2
    then some ErrorCode.crypto_peer_key_failed
    else if v == 3
    then some ErrorCode.crypto_hkdf_failed
    else if v == 4
    then some ErrorCode.crypto_random_failed
    else if v == 5
    then some ErrorCode.crypto_encrypt_failed
    else if v == 6
    then some ErrorCode.crypto_decrypt_failed
    else if v == 7
    then some ErrorCode.crypto_ciphertext_too_short
    else if v == 8
    then some ErrorCode.loops_not_running
    else if v == 9
    then some ErrorCode.packet_too_large
    else if v == 10
    then some ErrorCode.invalid_handshake_key_size
    else if v == 11
    then some ErrorCode.transport_encrypt_failed
    else if v == 12
    then some ErrorCode.transport_decrypt_failed
    else if v == 13
    then some ErrorCode.stream_payload_too_large
    else if v == 14
    then some ErrorCode.connection_idle_timeout
    else if v == 15
    then some ErrorCode.malformed_packet
    else if v == 16
    then some ErrorCode.receiver_refused_transfer
    else if v == 17
    then some ErrorCode.unknown_packet_type
    else if v == 18
    then some ErrorCode.transfer_size_exceeded
    else if v == 19
    then some ErrorCode.premature_end_transfer
    else if v == 20
    then some ErrorCode.unsupported_file_type
    else if v == 21
    then some ErrorCode.symlink_payload_too_large
    else if v == 22
    then some ErrorCode.malformed_symlink_payload
    else if v == 23
    then some ErrorCode.unknown_file_id
    else if v == 24
    then some ErrorCode.file_open_failed
    else if v == 25
    then some ErrorCode.file_write_failed
    else none

abbrev pub describe_value : Option ErrorCode → String
describe_value (some code) = describe code
describe_value none = "unknown FileHopZ error"

-- `Filehopz_error_category::message`: a number that names no enumerator falls through the switch.
unfoldable pub message : ℕ → String
message value = describe_value (enumerator value)

pub Expected-cases {ℓ} :
    {A : Type ℓ} (r : Expected A)
    → ((a : A) × (r ≡ ok a)) ⊎ ((ec : BoostError) × (r ≡ unexpected ec))
Expected-cases (ok a) = inl (a, refl)
Expected-cases (unexpected ec) = inr (ec, refl)
