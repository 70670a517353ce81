-- ===== src/Parsing/Build.antt =====
-- src/utils/data_parser.ts: `buildEsdtTransferData` and `buildMultiEsdtTransferData`. `to_hex` is
-- `Buffer.from(text, "utf8").toString("hex")`, and `hex_of_bech32` is the SDK's reading of an address.
use blockrun_multiversx_plat.Base.{
  ℕ, zero, suc, ◌+◌, ◌/◌, ◌%◌, String, Option, List, [], ◌∷◌, ◌++◌, ltb, same_ℕ, if◌then◌else◌,
  ℕ_key, text_key, or_else,
}
use blockrun_multiversx_plat.Base.Thrown.{Thrown, ok, ◌>>=◌}
use blockrun_multiversx_plat.Base.Lists.{length}
use blockrun_multiversx_plat.Base.Text.{units, units_key}

-- `n.toString(16)` of a natural number.
abbrev pub hex_digit : ℕ → ℕ
hex_digit n = if ltb n 10 then 48 + n else 87 + n

unfoldable pub hex_from : ℕ → ℕ → List ℕ → List ℕ
hex_from zero n shown = shown
hex_from (suc fuel) n shown =
    let more = hex_digit (n % 16) ∷ shown in
    let rest = hex_from fuel (n / 16) more in if ltb n 16 then more else rest

unfoldable pub show_hex : ℕ → List ℕ
unfolding hex_from
show_hex n = hex_from (n + 1) n []

-- An odd number of digits gets a zero in front.
unfoldable pub even_hex : List ℕ → List ℕ
even_hex s = if same_ℕ (length s % 2) 0 then s else b'0' ∷ s

-- `parts.join("@")`
abbrev pub join_parts : List (List ℕ) → List ℕ
join_parts [] = []
join_parts (p ∷ []) = p
join_parts (p ∷ q ∷ ps) = p ++ b'@' ∷ join_parts (q ∷ ps)

pub record TokenTransfer : Type 0 where
  pub token_identifier : List ℕ
  pub amount : ℕ
  pub nonce : Option ℕ

module _ (to_hex : List ℕ → List ℕ) where
  unfoldable pub build_esdt_transfer_data : List ℕ → ℕ → List ℕ
  unfolding show_hex even_hex
  build_esdt_transfer_data token amount =
      units "ESDTTransfer@" ++ to_hex token ++ b'@' ∷ even_hex (show_hex amount)

  abbrev pub transfer_parts : List TokenTransfer → List (List ℕ)
  transfer_parts [] = []
  transfer_parts (t ∷ ts) =
      to_hex t.token_identifier
      ∷ even_hex (show_hex (or_else t.nonce 0))
      ∷ even_hex (show_hex t.amount)
      ∷ transfer_parts ts

  unfoldable pub build_multi_esdt_transfer_data :
      (String → Thrown (List ℕ)) → String → List TokenTransfer → Thrown (List ℕ)
  build_multi_esdt_transfer_data hex_of_bech32 receiver transfers = do
    receiver_hex ← hex_of_bech32 receiver
    ok (
        join_parts (
          units "MultiESDTNFTTransfer"
          ∷ receiver_hex
          ∷ even_hex (show_hex (length transfers))
          ∷ transfer_parts transfers))
