-- ===== src/Hash.antt =====
-- src/hash.rs: the domain-separated hash.
pub mod Encoding
use digital_euro_wallet.Prelude.{
  ◌%◌, ◌^◌, List, [], ◌∷◌, ◌++◌, String, Bytes, length, codes, to_be_bytes,
}
use digital_euro_wallet.Crates.{Crates}

-- each part behind its length, `(part.len() as u64).to_be_bytes()`
unfoldable pub encode_parts : List Bytes → Bytes
encode_parts [] = []
encode_parts (part ∷ parts) = to_be_bytes 8 (length part) ++ (part ++ encode_parts parts)

-- all that the hasher is fed; `tag.len() as u32` truncates
unfoldable pub encode : String → List Bytes → Bytes
encode tag parts =
    let bytes = codes tag in to_be_bytes 4 (length bytes % 2 ^ 32) ++ (bytes ++ encode_parts parts)

module _ ⦃x : Crates⦄ where
  unfoldable pub tagged : String → List Bytes → Bytes
  tagged tag parts = x.sha256 (encode tag parts)
