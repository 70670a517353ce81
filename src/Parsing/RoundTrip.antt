-- ===== src/Parsing/RoundTrip.antt =====
-- What src/utils/data_parser.ts builds for an ESDT transfer, it parses back.
use blockrun_multiversx_plat.Base.{
  ℕ, ◌≡◌, refl, sym, ap, ◌∙◌, true, false, Option, none, some, List, [], ◌∷◌, ◌++◌, append_assoc,
  append-nil, arith, same_ℕ, ℕ_key, text_key,
}
use blockrun_multiversx_plat.Base.Thrown.{Thrown, ok, err}
use blockrun_multiversx_plat.Base.Lists.{All}
use blockrun_multiversx_plat.Base.Text.{units, split, show_ℕ, same_units, same_units_iff, units_key}
use blockrun_multiversx_plat.Base.Int.{ℤ, pos, show_ℤ}
use blockrun_multiversx_plat.Base.Text.{split_on}
use blockrun_multiversx_plat.Parsing.Defs.{
  esdt, ParsedTransfer, ParserInput, Decoders, is_transfer_call, decode_transaction_data, Parsed,
  found, native_part, esdt_part, token_part, transfers_of, and_then, token_step,
  parse_transaction_transfers,
}
use blockrun_multiversx_plat.Parsing.Defs.{esdt}
use blockrun_multiversx_plat.Parsing.Build.{show_hex, even_hex, build_esdt_transfer_data}
use blockrun_multiversx_plat.Parsing.Hex.{IsPlain, even_hex-IsHexOf, hex_amount-IsHexOf}

-- No separator of the parts.
abbrev pub IsPart : List ℕ → Type 0
IsPart s = All (λ c. same_ℕ c b'@' ≡ false) s

plain-IsPart : (s : List ℕ) → All IsPlain s → IsPart s
plain-IsPart [] h = tt
plain-IsPart (c ∷ s) h = (h.0.1, plain-IsPart s h.1)

split_on-last : (cur s : List ℕ) → IsPart s → split_on b'@' cur s ≡ (cur ++ s) ∷ []
split_on-last cur [] h = ap (λ x. x ∷ []) (sym (append-nil cur))
split_on-last cur (c ∷ s) h =
    let rest = split_on-last (cur ++ c ∷ []) s h.1 in
    ground (arith, h.0, rest, append_assoc cur (c ∷ []) s)

split_on-part :
    (cur s t : List ℕ)
    → IsPart s
    → split_on b'@' cur (s ++ b'@' ∷ t) ≡ (cur ++ s) ∷ split_on b'@' [] t
split_on-part cur [] t h = ap (λ x. x ∷ split_on b'@' [] t) (sym (append-nil cur))
split_on-part cur (c ∷ s) t h =
    let rest = split_on-part (cur ++ c ∷ []) s t h.1 in
    ground (arith, h.0, rest, append_assoc cur (c ∷ []) s)

-- The transfer that the data stands for.
abbrev pub built_transfer : ParserInput → List ℕ → ℕ → ParsedTransfer
built_transfer p token amount = record {
  transfer_type = esdt;
  asset = token;
  amount = pos amount;
  amount_text = units (show_ℕ amount);
  receiver = p.receiver;
  sender = p.sender;
  token_nonce = none;
}

module _ (d : Decoders) (to_hex : List ℕ → List ℕ) where
  build_esdt_transfer_data-parts :
      (token : List ℕ) (amount : ℕ)
      → IsPart (to_hex token)
      → split b'@' (build_esdt_transfer_data to_hex token amount)
        ≡ units "ESDTTransfer" ∷ to_hex token ∷ even_hex (show_hex amount) ∷ []
  unfolding build_esdt_transfer_data
  build_esdt_transfer_data-parts token amount h =
      ap (λ x. units "ESDTTransfer" ∷ x)
        (split_on-part [] (to_hex token) (even_hex (show_hex amount)) h
          ∙ ap (λ x. to_hex token ∷ x)
              (split_on-last [] (even_hex (show_hex amount))
                (plain-IsPart _ (even_hex-IsHexOf amount).1)))

  esdt_part-built :
      (p : ParserInput) (token : List ℕ) (amount : ℕ)
      → d.from_hex (to_hex token) ≡ token
      → esdt_part d p [] (units "ESDTTransfer" ∷ to_hex token ∷ even_hex (show_hex amount) ∷ [])
        ≡ found (built_transfer p token amount ∷ [])
  unfolding esdt_part
  esdt_part-built p token amount h =
      let read = hex_amount-IsHexOf amount _ (even_hex-IsHexOf amount) in
      let transfer : List ℕ → ℤ → ParsedTransfer = λ asset a. record {
        transfer_type = esdt;
        asset = asset;
        amount = a;
        amount_text = units (show_ℤ a);
        receiver = p.receiver;
        sender = p.sender;
        token_nonce = none;
      } in
      let after : Thrown ℤ → Parsed = λ r. elim r [
        | err e ↦ found []
        | ok a ↦ found (transfer (d.from_hex (to_hex token)) a ∷ [])
      ] in
      ap after read ∙ ap (λ x. found (transfer x (pos amount) ∷ [])) h

  decode-build_esdt_transfer_data :
      (token : List ℕ) (amount : ℕ)
      → let built = build_esdt_transfer_data to_hex token amount in
        decode_transaction_data d (some built) ≡ some built
  unfolding decode_transaction_data build_esdt_transfer_data is_transfer_call
  decode-build_esdt_transfer_data token amount = refl

  native_part-free :
      (p : ParserInput) (decoded : Option (List ℕ))
      → p.value ≡ units "0"
      → native_part p decoded ≡ found []
  unfolding native_part
  native_part-free p decoded h =
      let zero_value : same_units p.value (units "0") ≡ true = (same_units_iff _ _).1 h in
      ground (arith, zero_value)

  -- For a transaction of no native value whose data `buildEsdtTransferData` has built for a token and
  -- an amount, the parser finds one transfer, of that token and amount, if the hexadecimal text of the
  -- token has no separator and reads back to it.
  pub parse-build_esdt_transfer_data :
      (p : ParserInput) (token : List ℕ) (amount : ℕ)
      → IsPart (to_hex token)
      → d.from_hex (to_hex token) ≡ token
      → p.value ≡ units "0"
      → p.tx_data ≡ some (build_esdt_transfer_data to_hex token amount)
      → parse_transaction_transfers d p ≡ built_transfer p token amount ∷ []
  unfolding parse_transaction_transfers token_step token_part same_units
  parse-build_esdt_transfer_data p token amount h back free called =
      let built = build_esdt_transfer_data to_hex token amount in
      let decoded =
        ap (decode_transaction_data d) called ∙ decode-build_esdt_transfer_data token amount in
      let native = native_part-free p (decode_transaction_data d p.tx_data) free in
      ap (λ x. transfers_of (and_then x (token_step d p (decode_transaction_data d p.tx_data))))
        native
      ∙ ap (λ x. transfers_of (token_step d p x [])) decoded
      ∙ ap (λ x. transfers_of (token_part d p [] x)) (build_esdt_transfer_data-parts token amount h)
      ∙ ap transfers_of (esdt_part-built p token amount back)
