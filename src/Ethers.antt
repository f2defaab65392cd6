-- ===== src/Ethers.antt =====
-- The functions of the ethers package that the program calls. They are not part of the
-- repository, so the definitions that use them take this record. `none` is a call that
-- throws.
use veyronis.Prelude.{ℕ, String, Option, List, Bool}

-- A value with the ABI type that the coder is called with: `uint256` is `uint 256`, `bytes32` is
-- `bytes 32`.
pub data AbiValue : Type 0 where
  uint : ℕ → ℕ → AbiValue
  bytes : ℕ → String → AbiValue
  address : String → AbiValue
  bool : Bool → AbiValue

pub record Ethers : Type 0 where
  pub get_address : String → Option String
  pub keccak256 : String → String
  pub to_utf8_bytes : String → String
  -- `AbiCoder.defaultAbiCoder().encode`, and `decode` at `["uint256"]`.
  pub encode : List AbiValue → Option String
  pub decode_uint256 : String → Option ℕ
  -- `id`, the hash of a text.
  pub id : String → String
  -- `Interface(["function transfer(address to,uint256 amount)"]).decodeFunctionData`.
  pub decode_transfer : String → Option (String × ℕ)
  pub zero_address : String
  pub zero_hash : String
