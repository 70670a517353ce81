-- ===== src/Services/Gas/Esdt.antt =====
-- The two ways of src/services/gas_calculator.ts to the gas of an ESDT transfer.
use blockrun_multiversx_plat.Base.{
  ℕ, zero, suc, ◌+◌, ◌/◌, ◌%◌, ◌<◌, ◌≡◌, refl, sym, ap, ◌∙◌, inl, inr, Bool, true, false, none,
  List, [], ◌∷◌, ◌++◌, arith, ltb, same_ℕ, ℕ_key, text_key, ltb→lt, Bool-cases, if_both,
}
use blockrun_multiversx_plat.Base.Lists.{length, all, All, All-append}
use blockrun_multiversx_plat.Base.Text.{units, starts_with, units_key}
use blockrun_multiversx_plat.Parsing.Build.{
  hex_digit, hex_from, show_hex, even_hex, build_esdt_transfer_data,
}
use blockrun_multiversx_plat.Services.Gas.Defs.{
  esdt_transfer_cost, GasCalculationParams, gas_result, determine_execution_gas, calculate,
  for_esdt_transfer,
}
use blockrun_multiversx_plat.Base.Int.{pos}

-- A unit of ASCII.
abbrev pub IsAscii : ℕ → Type 0
IsAscii c = c < 128

hex_from-IsAscii :
    (fuel n : ℕ) (shown : List ℕ) → All IsAscii shown → All IsAscii (hex_from fuel n shown)
unfolding hex_from
hex_from-IsAscii zero n shown h = h
hex_from-IsAscii (suc fuel) n shown h =
    let digit : IsAscii (hex_digit (n % 16)) = ground arith in
    let more = hex_digit (n % 16) ∷ shown in
    if_both (All IsAscii) (ltb n 16) more (hex_from fuel (n / 16) more) (digit, h)
      (hex_from-IsAscii fuel (n / 16) more (digit, h))

even_hex-IsAscii : (n : ℕ) → All IsAscii (even_hex (show_hex n))
unfolding even_hex show_hex
even_hex-IsAscii n =
    let digits = hex_from-IsAscii (n + 1) n [] tt in
    if_both (All IsAscii) (same_ℕ (length (show_hex n) % 2) 0) (show_hex n) (b'0' ∷ show_hex n)
      digits (omega arith, digits)

all-IsAscii : (s : List ℕ) → all (λ c. ltb c 128) s ≡ true → All IsAscii s
all-IsAscii [] h = tt
all-IsAscii (c ∷ s) h = elim (Bool-cases (ltb c 128)) [
  | inl low ↦ (ltb→lt c 128 low, all-IsAscii s (ground (arith, h, low)))
  | inr high ↦ absurd (ground (arith, h, high))
]

build_esdt_transfer_data-IsAscii :
    (to_hex : List ℕ → List ℕ) (token : List ℕ) (amount : ℕ)
    → All IsAscii (to_hex token)
    → All IsAscii (build_esdt_transfer_data to_hex token amount)
unfolding build_esdt_transfer_data
build_esdt_transfer_data-IsAscii to_hex token amount h =
    All-append IsAscii (units "ESDTTransfer@") (to_hex token ++ b'@' ∷ even_hex (show_hex amount))
      (all-IsAscii (units "ESDTTransfer@") refl)
      (All-append IsAscii (to_hex token) (b'@' ∷ even_hex (show_hex amount)) h
        (omega arith, even_hex-IsAscii amount))

module _ (text_of bytes_of to_hex : List ℕ → List ℕ) where
  -- The parameters of a transfer whose execution gas is left to the calculator.
  abbrev pub transfer_params : List ℕ → ℕ → Bool → GasCalculationParams
  transfer_params token amount is_relayed = record {
    call_data = bytes_of (build_esdt_transfer_data to_hex token amount);
    is_relayed = is_relayed;
    is_guarded = false;
    gas_price = none;
    custom_execution_gas = none;
  }

  determine_execution_gas-esdt :
      (bytes text : List ℕ)
      → text_of [] ≡ []
      → text_of bytes ≡ units "ESDTTransfer@" ++ text
      → determine_execution_gas text_of bytes ≡ pos esdt_transfer_cost
  unfolding determine_execution_gas
  determine_execution_gas-esdt [] text nothing h = absurd (let e = sym nothing ∙ h in cc)
  determine_execution_gas-esdt (c ∷ bytes) text nothing h =
      let called = ap (λ x. starts_with x (units "ESDTTransfer@")) h in ground (arith, called)

  -- `forEsdtTransfer` gives what `calculate` gives for the data that `buildEsdtTransferData` builds for
  -- the same token and amount, where it has to find out the execution gas from the data, if
  -- the hexadecimal text of the token is ASCII and reading the bytes of an ASCII text gives the text.
  pub for_esdt_transfer-calculate :
      (token : List ℕ) (amount : ℕ) (is_relayed : Bool)
      → text_of [] ≡ []
      → All IsAscii (to_hex token)
      → ((s : List ℕ) → All IsAscii s → text_of (bytes_of s) ≡ s)
      → for_esdt_transfer text_of bytes_of to_hex token amount is_relayed
        ≡ calculate text_of (transfer_params token amount is_relayed)
  unfolding for_esdt_transfer calculate gas_result build_esdt_transfer_data show_hex even_hex
  for_esdt_transfer-calculate token amount is_relayed nothing hexed back =
      let built = build_esdt_transfer_data to_hex token amount in
      ap (gas_result (transfer_params token amount is_relayed)) (
        sym (
          determine_execution_gas-esdt (bytes_of built) _ nothing
            (back built (build_esdt_transfer_data-IsAscii to_hex token amount hexed))))
