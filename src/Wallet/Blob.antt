-- ===== src/Wallet/Blob.antt =====
-- The encoding of data as a blob (wallet/blobtx/blob_encode.go). Bytes are numbers. The sizes of a
-- blob, the commitments, the proofs and the hash come from other libraries and are parameters.
pub mod RoundTrip
use assertoor.Prelude.{
  ℕ, zero, suc, ◌+◌, ◌-◌, ◌*◌, ◌⊎◌, inl, inr, Option, none, some, List, [], ◌∷◌, ◌++◌, arith, ltb,
  if◌then◌else◌, length, set, take, drop, nat_key, string_key,
}

unfoldable pub zeros : ℕ → List ℕ
zeros zero = []
zeros (suc n) = 0 ∷ zeros n

-- `copy(blob[pos:], src)`.
unfoldable pub copy_at : (pos : ℕ) → (src blob : List ℕ) → List ℕ
copy_at pos src blob = take pos blob ++ take (length blob - pos) src ++ drop (pos + length src) blob

-- The loop over the data: `left` is how many field elements the blob has from `field_index` on, and
-- `rest` the data from `i` on.
unfoldable pub encode_fields : (left field_index : ℕ) → (rest blob : List ℕ) → List ℕ
unfolding copy_at
encode_fields zero field_index rest blob = blob
encode_fields (suc left) field_index [] blob = blob
encode_fields (suc left) field_index (b ∷ rest) blob =
    encode_fields left (field_index + 1) (drop 31 (b ∷ rest))
      (copy_at (field_index * 32 + 1) (take 31 (b ∷ rest)) blob)

-- A blob has `fields` field elements of 32 bytes.
unfoldable pub encode_blob_data : (fields : ℕ) → List ℕ → List ℕ
unfolding encode_fields zeros
encode_blob_data fields bytes = encode_fields fields 0 bytes (zeros (fields * 32))

pub record BlobCommitment {ℓ} (K : Type ℓ) : Type ℓ where
  pub blob : List ℕ
  pub commitment : K
  pub proof : K
  pub versioned_hash : List ℕ

pub data EncodeError : Type 0 where
  too_long no_commitment no_proof : EncodeError

-- `VersionedHash[0] = 0x01`.
abbrev version : List ℕ → List ℕ
version hash = set hash 0 1

module _ {ℓ} {K : Type ℓ} where
  unfoldable pub encode_blob :
      (fields bytes_per_field : ℕ)
      → (blob_to_commitment : List ℕ → Option K) → (compute_blob_proof : List ℕ → K → Option K)
      → (sum256 : K → List ℕ) → List ℕ
      → BlobCommitment K ⊎ EncodeError
  unfolding encode_blob_data
  encode_blob fields bytes_per_field blob_to_commitment compute_blob_proof sum256 bytes =
      let blob = encode_blob_data fields bytes in
      if ltb (fields * (bytes_per_field - 1)) (length bytes)
      then inr too_long
      else (elim (blob_to_commitment blob) [
        | none ↦ inr no_commitment
        | some c ↦ elim (compute_blob_proof blob c) [
          | none ↦ inr no_proof
          | some p ↦ inl (record {
            blob = blob;
            commitment = c;
            proof = p;
            versioned_hash = version (sum256 c);
          })
        ]
      ])
