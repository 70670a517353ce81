-- ===== src/Services/Gas/Tests.antt =====
-- Runs of the gas calculator, and its theorem at a concrete transfer.
use blockrun_multiversx_plat.Base.{
  ℕ, ◌≡◌, refl, true, false, none, List, [], arith, ℕ_key, text_key,
}
use blockrun_multiversx_plat.Base.Text.{units, units_key}
use blockrun_multiversx_plat.Base.Int.{pos, ◌+ℤ◌}
use blockrun_multiversx_plat.Parsing.Defs.{parse_int_16}
use blockrun_multiversx_plat.Services.Gas.Defs.{
  gas_result, multi_transfer_gas, determine_execution_gas, calculate, for_esdt_transfer,
  for_multi_esdt_transfer,
}
use blockrun_multiversx_plat.Services.Gas.Esdt.{transfer_params, for_esdt_transfer-calculate}

abbrev same_text : List ℕ → List ℕ
same_text s = s

plain_transfer :
    (calculate same_text (record {
      call_data = [];
      is_relayed = true;
      is_guarded = true;
      gas_price = none;
      custom_execution_gas = none;
    })).gas_limit
    ≡ pos 150000
unfolding calculate gas_result determine_execution_gas ◌+ℤ◌
plain_transfer = refl

two_tokens : determine_execution_gas same_text (units "MultiESDTNFTTransfer@aa@02") ≡ pos 400000
unfolding determine_execution_gas multi_transfer_gas parse_int_16
two_tokens = refl

two_tokens_ahead : (for_multi_esdt_transfer same_text 2 10 false).gas_limit ≡ pos 465000
unfolding for_multi_esdt_transfer calculate gas_result ◌+ℤ◌
two_tokens_ahead = refl

for_esdt_transfer-calculate_example :
    for_esdt_transfer same_text same_text same_text (units "55") 1000 true
    ≡ calculate same_text (transfer_params same_text same_text same_text (units "55") 1000 true)
for_esdt_transfer-calculate_example =
    for_esdt_transfer-calculate same_text same_text same_text (units "55") 1000 true refl
      (omega arith, (omega arith, tt)) (λ s h. refl)
