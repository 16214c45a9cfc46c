-- ===== src/Presentation/Verify/Packed.antt =====
-- A package of system/pkg/zkp/zkp_result.go before the check of the proof in
-- system/api/src/zkprequest/service.go.
use digital_identity_system.Prelude.{String, ◌≡◌, refl, false, some, is_empty, guard}
use digital_identity_system.Dict.{Dict}
use digital_identity_system.Presentation.Types.{Bytes}
use digital_identity_system.Presentation.Env.{Env}
use digital_identity_system.Presentation.Package.{
  ZkpResult, IsFaithful, serialize_borsh, reconstruct_zkp_result,
  reconstruct_zkp_result-serialize_borsh,
}
use digital_identity_system.Presentation.Verify.{cached, check_proof}

-- Let the libraries read back what they have written, let a result be packed into bytes and the
-- bytes be sent as a text that decodes to them, and let the server hold a key for the schema. Then
-- the server unpacks the result, but for the hash of its transaction, which is lost; and it accepts
-- the text exactly if the proof of the result verifies with the result's public witness under the
-- server's key, and answers "verify failed" if it does not.
pub packed_is_checked :
    (env : Env) (result : ZkpResult env.Proof env.Witness) (bytes : Bytes) (blob hash : String)
    (vk_cache : Dict Bytes) (vk : env.VerifyingKey)
    → IsFaithful env.codec
    → serialize_borsh env.codec result ≡ some bytes
    → env.base64_decode blob ≡ some bytes
    → is_empty (cached hash vk_cache) ≡ false
    → env.read_vk (cached hash vk_cache) ≡ some vk
    → (reconstruct_zkp_result env.codec bytes ≡ some (record result { tx_hash = "" }))
      × (check_proof env vk_cache hash blob
          ≡ guard (env.verify result.proof vk result.public_witness) "verify failed")
unfolding check_proof
packed_is_checked env result bytes blob hash vk_cache vk faithful packed sent held loaded =
    let unpacked = reconstruct_zkp_result-serialize_borsh env.codec result bytes faithful packed in
    (unpacked, rw (sent, check_proof) (rw unpacked (rw held (rw loaded refl))))
