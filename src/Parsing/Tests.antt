-- ===== src/Parsing/Tests.antt =====
-- Runs of the transfer parser, and its theorem at a concrete transaction.
use blockrun_multiversx_plat.Base.{String, ◌≡◌, refl, some, List, [], ◌∷◌, ℕ_key, text_key}
use blockrun_multiversx_plat.Base.Thrown.{ok}
use blockrun_multiversx_plat.Base.Lists.{length}
use blockrun_multiversx_plat.Base.Text.{units, same_units, units_key}
use blockrun_multiversx_plat.Parsing.Defs.{
  ParserInput, Decoders, decode_transaction_data, extract_chain_id, hex_amount, parse_int_16,
  native_part, esdt_part, nft_part, triples, multi_part, token_part, token_step,
  parse_transaction_transfers,
}
use blockrun_multiversx_plat.Base.Int.{big_int_units}
use blockrun_multiversx_plat.Parsing.Build.{
  build_esdt_transfer_data, build_multi_esdt_transfer_data, TokenTransfer, show_hex, even_hex,
}
use blockrun_multiversx_plat.Parsing.RoundTrip.{built_transfer, parse-build_esdt_transfer_data}

abbrev plain : Decoders
plain = record { from_base64 = λ s. s; from_hex = λ s. s; bech32_of_hex = λ s. ok s }

abbrev paying : String → String → ParserInput
paying value call = record {
  value = units value;
  receiver = units "erd1to";
  sender = units "erd1from";
  tx_data = some (units call);
}

parser : Unit {0}
unfolding parse_transaction_transfers native_part token_step token_part esdt_part nft_part
    multi_part triples decode_transaction_data hex_amount parse_int_16 same_units big_int_units
parser = tt

pure_transfer :
    length (parse_transaction_transfers plain (paying "0" "ESDTTransfer@55534443@03e8")) ≡ 1
unfolding parser
pure_transfer = refl

appended_call :
    parse_transaction_transfers plain (paying "0" "ESDTTransfer@55534443@03e8@6275794e4654") ≡ []
unfolding parser
appended_call = refl

two_transfers :
    length
      (parse_transaction_transfers plain (paying "0" "MultiESDTNFTTransfer@aa@02@55@00@01@56@@02"))
    ≡ 2
unfolding parser
two_transfers = refl

chain_id : extract_chain_id (units "multiversx:D") ≡ units "D"
unfolding extract_chain_id
chain_id = refl

built_call : build_esdt_transfer_data (λ s. s) (units "55") 1000 ≡ units "ESDTTransfer@55@03e8"
unfolding build_esdt_transfer_data show_hex even_hex
built_call = refl

abbrev one_nft : List TokenTransfer
one_nft = record { token_identifier = units "aa"; amount = 1; nonce = some 255 } ∷ []

built_multi :
    build_multi_esdt_transfer_data (λ s. s) (λ a. ok (units a)) "bb" one_nft
    ≡ ok (units "MultiESDTNFTTransfer@bb@01@aa@ff@01")
unfolding build_multi_esdt_transfer_data show_hex even_hex
built_multi = refl

abbrev paying_55 : ParserInput
paying_55 = record (paying "0" "") {
  tx_data = some (build_esdt_transfer_data (λ s. s) (units "55") 1000);
}

parse-build_esdt_transfer_data_example :
    parse_transaction_transfers plain paying_55 ≡ built_transfer paying_55 (units "55") 1000 ∷ []
parse-build_esdt_transfer_data_example =
    parse-build_esdt_transfer_data plain (λ s. s) paying_55 (units "55") 1000 (refl, (refl, tt))
      refl refl refl
