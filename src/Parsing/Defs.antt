-- ===== src/Parsing/Defs.antt =====
-- src/utils/data_parser.ts: `decodeTransactionData`, `extractChainID` and `parseTransactionTransfers`.
-- Texts are lists of code units here, as the code splits and searches them. What Node's `Buffer` and
-- the SDK do is a parameter.
use blockrun_multiversx_plat.Base.{
  ℕ, ◌+◌, ◌*◌, Bool, false, not, ◌&&◌, ◌||◌, Option, none, some, List, [], ◌∷◌, ◌++◌, ltb, same_ℕ,
  if◌then◌else◌, ◌===◌, ℕ_key, text_key, or_else,
}
use blockrun_multiversx_plat.Base.Thrown.{Thrown, ok, err, ◌>>=◌}
use blockrun_multiversx_plat.Base.Lists.{length, get_elem?, drop}
use blockrun_multiversx_plat.Base.Text.{units, starts_with, includes, split, same_units, units_key}
use mathlib.Core.Option
use blockrun_multiversx_plat.Base.Int.{
  show_ℤ, ℤ, pos, negsuc, negate, ltb_ℤ, big_int_units, trim, digit_value,
}

pub data TransferType : Type 0 where
  egld esdt esdt_nft multi_esdt_nft : TransferType

-- The amount is a text in the code, which is read as an integer where it is compared: both are kept.
pub record ParsedTransfer : Type 0 where
  pub transfer_type : TransferType
  pub asset : List ℕ
  pub amount : ℤ
  pub amount_text : List ℕ
  pub receiver : List ℕ
  pub sender : List ℕ
  pub token_nonce : Option ℤ

-- What the parser reads of a transaction payload.
pub record ParserInput : Type 0 where
  pub value : List ℕ
  pub receiver : List ℕ
  pub sender : List ℕ
  pub tx_data : Option (List ℕ)

-- `Buffer.from(s, "base64").toString("utf8")`, `Buffer.from(s, "hex").toString("utf8")`, and
-- `Address.newFromHex(s).toBech32()`, which throws on what is no address.
pub record Decoders : Type 0 where
  pub from_base64 : List ℕ → List ℕ
  pub from_hex : List ℕ → List ℕ
  pub bech32_of_hex : List ℕ → Thrown (List ℕ)

abbrev pub esdt_transfer : List ℕ
esdt_transfer = units "ESDTTransfer"

abbrev pub esdt_nft_transfer : List ℕ
esdt_nft_transfer = units "ESDTNFTTransfer"

abbrev pub multi_transfer : List ℕ
multi_transfer = units "MultiESDTNFTTransfer"

-- The three tests on the beginning of a data field.
unfoldable pub is_transfer_call : List ℕ → Bool
is_transfer_call s =
    starts_with s (units "ESDTTransfer@")
    || starts_with s (units "ESDTNFTTransfer@")
    || starts_with s (units "MultiESDTNFTTransfer@")

-- A part of the data field that is missing or empty reads as "0".
abbrev pub or_zero : Option (List ℕ) → List ℕ
or_zero none = units "0"
or_zero (some []) = units "0"
or_zero (some (c ∷ s)) = c ∷ s

-- An absent part is `undefined`; the code hands it to `Buffer.from` only where it is present.
abbrev pub part : List (List ℕ) → ℕ → List ℕ
part parts i = or_else (get_elem? parts i) []

unfoldable pub decode_transaction_data : Decoders → Option (List ℕ) → Option (List ℕ)
unfolding is_transfer_call
decode_transaction_data d none = none
decode_transaction_data d (some []) = none
decode_transaction_data d (some (c ∷ s)) =
    if is_transfer_call (c ∷ s)
    then some (c ∷ s)
    else (if is_transfer_call (d.from_base64 (c ∷ s))
        then some (d.from_base64 (c ∷ s))
        else some (c ∷ s))

-- `network.includes(":") ? network.split(":")[1] : network`
unfoldable pub extract_chain_id : List ℕ → List ℕ
extract_chain_id network =
    if includes network (units ":") then part (split b':' network) 1 else network

-- `BigInt("0x" + (part || "0"))`
unfoldable pub hex_amount : Option (List ℕ) → Thrown ℤ
hex_amount p = big_int_units (units "0x" ++ or_zero p)

-- The longest beginning that is made of hexadecimal digits, read in base 16; `none` is NaN.
abbrev pub hex_prefix : Option ℕ → List ℕ → Option ℕ
hex_prefix acc [] = acc
hex_prefix acc (c ∷ s) =
    let rest = hex_prefix (some (or_else acc 0 * 16 + digit_value c)) s in
    if ltb (digit_value c) 16 then rest else acc

abbrev pub skip_0x : List ℕ → List ℕ
skip_0x (z ∷ x ∷ s) = if same_ℕ z b'0' && (same_ℕ x b'x' || same_ℕ x b'X') then s else z ∷ x ∷ s
skip_0x s = s

-- `parseInt(s, 16)`
unfoldable pub parse_int_16 : List ℕ → Option ℤ
unfolding trim
parse_int_16 s = elim (trim s) [
  | [] ↦ none
  | c ∷ r ↦
      if same_ℕ c b'-'
      then Option.map negate (hex_prefix none (skip_0x r))
      else Option.map pos (hex_prefix none (skip_0x (if same_ℕ c b'+' then r else c ∷ r)))
]

-- `return []`, or the transfers found so far.
pub data Parsed : Type 0 where
  rejected : Parsed
  found : List ParsedTransfer → Parsed

-- Data that is more than blanks and is not "0".
abbrev pub carries_data : Option (List ℕ) → Bool
carries_data none = false
carries_data (some s) = ltb 0 (length (trim s)) && not (s === units "0")

abbrev pub is_positive : ℤ → Bool
is_positive z = ltb_ℤ (pos 0) z

-- Step 1: the native transfer. A value that is no integer is passed over.
unfoldable pub native_part : ParserInput → Option (List ℕ) → Parsed
native_part p decoded =
    if same_units p.value [] || same_units p.value (units "0")
    then found []
    else elim (big_int_units p.value) [
      | err e ↦ found []
      | ok v ↦
          if is_positive v
          then (if carries_data decoded
              then rejected
              else found (
                  record {
                    transfer_type = egld;
                    asset = units "EGLD";
                    amount = v;
                    amount_text = p.value;
                    receiver = p.receiver;
                    sender = p.sender;
                    token_nonce = none;
                  }
                  ∷ []))
          else found []
    ]

-- `ESDTTransfer@token@amount`, of strictly three parts.
unfoldable pub esdt_part : Decoders → ParserInput → List ParsedTransfer → List (List ℕ) → Parsed
esdt_part d p before parts =
    if same_ℕ (length parts) 3
    then elim (hex_amount (get_elem? parts 2)) [
      | err e ↦ found before
      | ok amount ↦ found (
          before
          ++ record {
            transfer_type = esdt;
            asset = d.from_hex (part parts 1);
            amount = amount;
            amount_text = units (show_ℤ amount);
            receiver = p.receiver;
            sender = p.sender;
            token_nonce = none;
          }
            ∷ [])
    ]
    else rejected

-- `ESDTNFTTransfer@token@nonce@amount@receiver`, of strictly five parts.
unfoldable pub nft_part : Decoders → ParserInput → List ParsedTransfer → List (List ℕ) → Parsed
nft_part d p before parts =
    let read = do
      amount ← hex_amount (get_elem? parts 3)
      receiver ← d.bech32_of_hex (part parts 4)
      ok (record {
        transfer_type = esdt_nft;
        asset = d.from_hex (part parts 1);
        amount = amount;
        amount_text = units (show_ℤ amount);
        receiver = receiver;
        sender = p.sender;
        token_nonce = some (or_else (parse_int_16 (or_zero (get_elem? parts 2))) (pos 0));
      })
    in if same_ℕ (length parts) 5
      then elim read [ err e ↦ found before | ok t ↦ found (before ++ t ∷ []) ]
      else rejected

-- The loop over the triples of a multi-transfer.
unfoldable pub triples :
    Decoders → ParserInput → List ℕ → List (List ℕ) → Thrown (List ParsedTransfer)
triples d p receiver (token ∷ nonce ∷ amount ∷ rest) = do
  a ← hex_amount (some amount)
  more ← triples d p receiver rest
  ok (
      record {
        transfer_type = multi_esdt_nft;
        asset = d.from_hex token;
        amount = a;
        amount_text = units (show_ℤ a);
        receiver = receiver;
        sender = p.sender;
        token_nonce = some (or_else (parse_int_16 (or_zero (some nonce))) (pos 0));
      }
      ∷ more)
triples d p receiver _ = ok []

-- The count must be positive, and the parts exactly three and three for each transfer.
abbrev pub count_fits : Option ℤ → ℕ → Bool
count_fits (some (pos n)) parts = same_ℕ parts (3 + n * 3) && ltb 0 n
count_fits (some (negsuc n)) parts = false
count_fits none parts = false

unfoldable pub multi_part : Decoders → ParserInput → List ParsedTransfer → List (List ℕ) → Parsed
multi_part d p before parts =
    let read = do receiver ← d.bech32_of_hex (part parts 1); triples d p receiver (drop 3 parts)
    in if count_fits (parse_int_16 (or_zero (get_elem? parts 2))) (length parts)
      then elim read [ err e ↦ rejected | ok ts ↦ found (before ++ ts) ]
      else rejected

-- Step 2: the token transfer that the data calls for.
unfoldable pub token_part : Decoders → ParserInput → List ParsedTransfer → List (List ℕ) → Parsed
token_part d p before parts =
    let name = part parts 0 in
    if same_units name esdt_transfer
    then esdt_part d p before parts
    else (if same_units name esdt_nft_transfer
        then nft_part d p before parts
        else (if same_units name multi_transfer then multi_part d p before parts else found before))

abbrev pub transfers_of : Parsed → List ParsedTransfer
transfers_of rejected = []
transfers_of (found ts) = ts

abbrev pub and_then : Parsed → (List ParsedTransfer → Parsed) → Parsed
and_then rejected next = rejected
and_then (found ts) next = next ts

unfoldable pub token_step : Decoders → ParserInput → Option (List ℕ) → List ParsedTransfer → Parsed
token_step d p none before = found before
token_step d p (some s) before = token_part d p before (split b'@' s)

unfoldable pub parse_transaction_transfers : Decoders → ParserInput → List ParsedTransfer
parse_transaction_transfers d p =
    let decoded = decode_transaction_data d p.tx_data in
    transfers_of (and_then (native_part p decoded) (token_step d p decoded))
