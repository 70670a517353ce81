-- ===== src/Services/Gas/Defs.antt =====
-- src/services/gas_calculator.ts: `MultiversXGasCalculator`. A data field is its bytes; the text of the
-- fee in EGLD is left out.
use blockrun_multiversx_plat.Base.{
  ℕ, zero, suc, ◌+◌, ◌*◌, Bool, false, Option, none, some, List, [], ◌∷◌, ◌++◌, leb, same_ℕ,
  if◌then◌else◌, ℕ_key, text_key, or_else,
}
use blockrun_multiversx_plat.Base.Lists.{length}
use blockrun_multiversx_plat.Base.Text.{units, starts_with, split, units_key}
use blockrun_multiversx_plat.Base.Int.{ℤ, pos, negsuc, ◌+ℤ◌, negate}
use blockrun_multiversx_plat.Parsing.Defs.{part, parse_int_16}
use blockrun_multiversx_plat.Parsing.Build.{show_hex, even_hex}

abbrev pub min_gas_limit : ℕ
min_gas_limit = 50000

abbrev pub gas_per_data_byte : ℕ
gas_per_data_byte = 1500

abbrev pub extra_gas_relayed_tx : ℕ
extra_gas_relayed_tx = 50000

abbrev pub extra_gas_guarded_tx : ℕ
extra_gas_guarded_tx = 50000

abbrev pub esdt_transfer_cost : ℕ
esdt_transfer_cost = 200000

abbrev pub esdt_nft_transfer_cost : ℕ
esdt_nft_transfer_cost = 200000

abbrev pub multi_transfer_cost_per_item : ℕ
multi_transfer_cost_per_item = 200000

abbrev pub default_gas_price : ℤ
default_gas_price = pos 1000000000

pub record GasCalculationParams : Type 0 where
  pub call_data : List ℕ
  pub is_relayed : Bool
  pub is_guarded : Bool
  pub gas_price : Option ℤ
  pub custom_execution_gas : Option ℤ

pub record GasCalculationResult : Type 0 where
  pub gas_limit : ℤ
  pub move_gas : ℕ
  pub execution_gas : ℤ
  pub data_gas : ℕ
  pub data_byte_length : ℕ
  pub gas_price : ℤ
  pub fee_in_wei : ℤ

abbrev pub scale : ℕ → ℤ → ℤ
scale k (pos n) = pos (k * n)
scale k (negsuc n) = negate (k * suc n)

-- The product of two BigInt values.
infixl 70 ◌*ℤ◌
abbrev pub ◌*ℤ◌ : ℤ → ℤ → ℤ
pos a *ℤ b = scale a b
negsuc a *ℤ pos b = negate (suc a * b)
negsuc a *ℤ negsuc b = pos (suc a * suc b)

-- `parseInt(part, 16) || 1`
abbrev pub items_of : Option ℤ → ℤ
items_of none = pos 1
items_of (some z) = elim z [ pos n ↦ if same_ℕ n 0 then pos 1 else pos n | negsuc n ↦ negsuc n ]

-- The limit and the fee for an execution gas.
unfoldable pub gas_result : GasCalculationParams → ℤ → GasCalculationResult
gas_result p execution_gas =
    let data_gas = length p.call_data * gas_per_data_byte in
    let extra_gas =
      (if p.is_relayed then extra_gas_relayed_tx else 0)
      + (if p.is_guarded then extra_gas_guarded_tx else 0) in
    let move_gas = min_gas_limit + data_gas + extra_gas in
    let gas_limit = pos move_gas +ℤ execution_gas in
    let gas_price = or_else p.gas_price default_gas_price in
    record {
      gas_limit = gas_limit;
      move_gas = move_gas;
      execution_gas = execution_gas;
      data_gas = data_gas;
      data_byte_length = length p.call_data;
      gas_price = gas_price;
      fee_in_wei = gas_limit *ℤ gas_price;
    }

-- `text_of` is `Buffer.from(bytes).toString("utf-8")`.
module _ (text_of : List ℕ → List ℕ) where
  unfoldable pub multi_transfer_gas : List (List ℕ) → ℤ
  multi_transfer_gas parts =
      if leb 3 (length parts)
      then scale multi_transfer_cost_per_item (items_of (parse_int_16 (part parts 2)))
      else pos multi_transfer_cost_per_item

  unfoldable pub determine_execution_gas : List ℕ → ℤ
  unfolding multi_transfer_gas
  determine_execution_gas [] = pos 0
  determine_execution_gas (c ∷ bytes) =
      let text = text_of (c ∷ bytes) in
      if starts_with text (units "ESDTTransfer@")
      then pos esdt_transfer_cost
      else (if starts_with text (units "ESDTNFTTransfer@")
          then pos esdt_nft_transfer_cost
          else (if starts_with text (units "MultiESDTNFTTransfer@")
              then multi_transfer_gas (split b'@' text)
              else pos 0))

  -- An execution gas that is not given is found out from the data.
  unfoldable pub calculate : GasCalculationParams → GasCalculationResult
  calculate p = gas_result p (or_else p.custom_execution_gas (determine_execution_gas p.call_data))

  -- `bytes_of` is `Buffer.from(text, "utf-8")`, and `to_hex` its hexadecimal text.
  unfoldable pub for_esdt_transfer :
      (bytes_of to_hex : List ℕ → List ℕ) → List ℕ → ℕ → (is_relayed : Bool) → GasCalculationResult
  unfolding show_hex even_hex
  for_esdt_transfer bytes_of to_hex token amount is_relayed = calculate (record {
    call_data =
        bytes_of (units "ESDTTransfer@" ++ to_hex token ++ b'@' ∷ even_hex (show_hex amount));
    is_relayed = is_relayed;
    is_guarded = false;
    gas_price = none;
    custom_execution_gas = some (pos esdt_transfer_cost);
  })

  -- The data is as many zero bytes as are given.
  abbrev pub zeros : ℕ → List ℕ
  zeros zero = []
  zeros (suc n) = 0 ∷ zeros n

  unfoldable pub for_multi_esdt_transfer : ℕ → ℕ → (is_relayed : Bool) → GasCalculationResult
  for_multi_esdt_transfer tokens payload_length is_relayed = calculate (record {
    call_data = zeros payload_length;
    is_relayed = is_relayed;
    is_guarded = false;
    gas_price = none;
    custom_execution_gas = some (pos (multi_transfer_cost_per_item * tokens));
  })
