-- ===== src/Presentation/Package.antt =====
-- system/pkg/zkp/zkp_result.go: a proof with its public witness, packed by Borsh.
-- `Codec` stands for gnark's readers and writers and for borsh-go.
use digital_identity_system.Prelude.{String, refl, ◌≡◌, Option, none, some, Option-cases, inl, inr}
use digital_identity_system.Presentation.Types.{Bytes}

infixl 5 ◌>>=◌
abbrev pub ◌>>=◌ {ℓ κ} : {A : Type ℓ} {B : Type κ} → Option A → (A → Option B) → Option B
some a >>= next = next a
none >>= next = none

-- `intermediateSerializationStep`
pub record Packed : Type 0 where
  pub proof : Bytes
  pub public_witness : Bytes

pub record Codec (Proof Witness : Type 0) : Type 0 where
  pub write_proof : Proof → Option Bytes
  pub read_proof : Bytes → Option Proof
  pub write_witness : Witness → Option Bytes
  pub read_witness : Bytes → Option Witness
  pub borsh_serialize : Packed → Option Bytes
  pub borsh_deserialize : Bytes → Option Packed

-- `ZkpResult`; `tx_hash` is not among the fields that are packed.
pub record ZkpResult (Proof Witness : Type 0) : Type 0 where
  pub proof : Proof
  pub public_witness : Witness
  pub tx_hash : String

module _ {Proof Witness : Type 0} (codec : Codec Proof Witness) where
  unfoldable pub serialize_borsh : ZkpResult Proof Witness → Option Bytes
  serialize_borsh result = do
    proof ← codec.write_proof result.proof
    witness ← codec.write_witness result.public_witness
    codec.borsh_serialize (record { proof = proof; public_witness = witness })

  unfoldable pub reconstruct_zkp_result : Bytes → Option (ZkpResult Proof Witness)
  reconstruct_zkp_result serialized = do
    packed ← codec.borsh_deserialize serialized
    proof ← codec.read_proof packed.proof
    witness ← codec.read_witness packed.public_witness
    some (record { proof = proof; public_witness = witness; tx_hash = "" })

  -- What the libraries document: reading gives back what was written.
  pub record IsFaithful : Type 0 where
    pub proofs :
        (p : Proof) (b : Bytes) → codec.write_proof p ≡ some b → codec.read_proof b ≡ some p
    pub witnesses :
        (w : Witness) (b : Bytes) → codec.write_witness w ≡ some b → codec.read_witness b ≡ some w
    pub packs :
        (p : Packed) (b : Bytes)
        → codec.borsh_serialize p ≡ some b
        → codec.borsh_deserialize b ≡ some p

-- Given that the libraries read back what they have written, a result that could be serialized is
-- reconstructed from its bytes, but for the hash of its transaction, which is lost.
pub reconstruct_zkp_result-serialize_borsh :
    {Proof Witness : Type 0} (codec : Codec Proof Witness) (result : ZkpResult Proof Witness)
    (bytes : Bytes)
    → IsFaithful codec
    → serialize_borsh codec result ≡ some bytes
    → reconstruct_zkp_result codec bytes ≡ some (record result { tx_hash = "" })
unfolding serialize_borsh reconstruct_zkp_result
reconstruct_zkp_result-serialize_borsh codec result bytes faithful h =
    elim (Option-cases (codec.write_proof result.proof)) [
      | inl e ↦ absurd (cc (rw e at h))
      | inr (p, e) ↦ elim (Option-cases (codec.write_witness result.public_witness)) [
        | inl e' ↦ absurd (cc (simp (e, e') at h))
        | inr (w, e') ↦
            let packed : Packed = record { proof = p; public_witness = w } in
            simp
              (
                faithful.packs packed bytes (simp (e, e') at h),
                faithful.proofs result.proof p e,
                faithful.witnesses result.public_witness w e',
              )
              refl
      ]
    ]
