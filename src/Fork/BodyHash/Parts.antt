-- ===== src/Fork/BodyHash/Parts.antt =====
-- What a body hash gives to its holder: the accessors of actix-hash/src/body_hash.rs. The bytes of a
-- digest's output are generic_array's, and the comparison of slices is the subtle crate's.
use actix_web_lab.Bytes.{Bytes}
use actix_web_lab.Fork.BodyHash.{BodyHash}
use actix_web_lab.Common.{ℕ, Bool, true, ◌≡◌, ◌↔◌, length}

pub record Slices (Output : Type 0) : Type 0 where
  pub as_slice : Output → Bytes
  pub ct_eq : Bytes → Bytes → Bool
  pub ct_eq_same : (a b : Bytes) → (ct_eq a b ≡ true) ↔ (a ≡ b)

pub record BodyHashParts (T : Type 0) : Type 0 where
  pub inner : T
  pub hash_bytes : Bytes

module _ {T Output : Type 0} (slices : Slices Output) where
  unfoldable pub hash : BodyHash T Output → Bytes
  hash h = slices.as_slice h.hash

  unfoldable pub hash_size : BodyHash T Output → ℕ
  hash_size h = length (slices.as_slice h.hash)

  unfoldable pub verify_slice : BodyHash T Output → Bytes → Bool
  verify_slice h tag = slices.ct_eq (slices.as_slice h.hash) tag

  unfoldable pub into_parts : BodyHash T Output → BodyHashParts T
  into_parts h = record { inner = h.inner; hash_bytes = hash h }

  -- A tag verifies exactly if it is the bytes that the parts hold.
  pub verify_slice-into_parts :
      (h : BodyHash T Output) (tag : Bytes)
      → (verify_slice h tag ≡ true) ↔ ((into_parts h).hash_bytes ≡ tag)
  unfolding verify_slice into_parts hash
  verify_slice-into_parts h tag = slices.ct_eq_same (slices.as_slice h.hash) tag
