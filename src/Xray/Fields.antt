-- ===== src/Xray/Fields.antt =====
-- The protowire package, which is not the repository's: appending and consuming fields, and what the
-- code relies on. A consumer gives the value and how many bytes it took, or none for its errors.
use dvpnd.Prelude.{ℕ, ◌<◌, ◌^◌, ◌≡◌, Option, some, [], ◌++◌, length, Bytes}

-- protowire.VarintType and BytesType
abbrev pub varint_type : ℕ
varint_type = 0

abbrev pub bytes_type : ℕ
bytes_type = 2

pub record Protowire : Type 0 where
  pub append_tag : Bytes → ℕ → ℕ → Bytes
  pub append_bytes : Bytes → Bytes → Bytes
  pub append_varint : Bytes → ℕ → Bytes
  pub consume_tag : Bytes → Option (ℕ × ℕ × ℕ)
  pub consume_field_value : ℕ → ℕ → Bytes → Option ℕ
  pub consume_bytes : Bytes → Option (Bytes × ℕ)
  pub consume_varint : Bytes → Option (ℕ × ℕ)

-- The field numbers and wire types that protowire writes and takes back.
abbrev pub IsTag : ℕ → ℕ → Type 0
IsTag num typ = (0 < num) × (num < 2 ^ 29) × (typ < 8)

pub record WireLaws (w : Protowire) : Type 0 where
  -- Append adds behind.
  pub tag-appends :
      (b : Bytes) (num typ : ℕ) → w.append_tag b num typ ≡ b ++ w.append_tag [] num typ
  pub bytes-appends : (b v : Bytes) → w.append_bytes b v ≡ b ++ w.append_bytes [] v
  pub varint-appends : (b : Bytes) (v : ℕ) → w.append_varint b v ≡ b ++ w.append_varint [] v
  -- A consumer takes what was appended, whatever follows.
  pub tag-back :
      (num typ : ℕ) (rest : Bytes)
      → IsTag num typ
      → w.consume_tag (w.append_tag [] num typ ++ rest)
        ≡ some (num, typ, length (w.append_tag [] num typ))
  pub bytes-back :
      (v rest : Bytes)
      → w.consume_bytes (w.append_bytes [] v ++ rest) ≡ some (v, length (w.append_bytes [] v))
  pub varint-back :
      (v : ℕ) (rest : Bytes)
      → v < 2 ^ 64
      → w.consume_varint (w.append_varint [] v ++ rest) ≡ some (v, length (w.append_varint [] v))
  -- A tag has a byte at least.
  pub tag-positive : (b : Bytes) (num typ n : ℕ) → w.consume_tag b ≡ some (num, typ, n) → 0 < n
