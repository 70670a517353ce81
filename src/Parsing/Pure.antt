-- ===== src/Parsing/Pure.antt =====
-- What every transfer that src/utils/data_parser.ts reports says of the transaction: the data field
-- is a pure transfer call of exactly that shape, with nothing appended to it.
use blockrun_multiversx_plat.Base.{
  ℕ, ◌+◌, ◌*◌, ◌<◌, ◌≡◌, true, false, Option, none, some, List, text_key,
}
use blockrun_multiversx_plat.Base.Thrown.{Thrown, ok, ◌>>=◌}
use blockrun_multiversx_plat.Base.Lists.{length, All}
use blockrun_multiversx_plat.Base.Text.{split, units_key}
use blockrun_multiversx_plat.Base.Int.{big_int_units}
use blockrun_multiversx_plat.Parsing.Defs.{
  TransferType, egld, esdt, esdt_nft, multi_esdt_nft, ParsedTransfer, ParserInput, esdt_transfer,
  esdt_nft_transfer, multi_transfer, part, Parsed, carries_data, is_positive, transfers_of,
}

-- The data field is a call of `name` with exactly `count` parts.
abbrev pub IsCall : Option (List ℕ) → List ℕ → ℕ → Type 0
IsCall none name count = ⊥
IsCall (some s) name count = (part (split b'@' s) 0 ≡ name) × (length (split b'@' s) ≡ count)

-- What a reported transfer of each type says of the transaction.
abbrev pub IsPureAs : TransferType → ParserInput → Option (List ℕ) → ParsedTransfer → Type 0
IsPureAs egld p call t =
    (carries_data call ≡ false)
    × (is_positive t.amount ≡ true)
    × (t.receiver ≡ p.receiver)
    × (big_int_units p.value ≡ ok t.amount)
IsPureAs esdt p call t = IsCall call esdt_transfer 3 × (t.receiver ≡ p.receiver)
IsPureAs esdt_nft p call t = IsCall call esdt_nft_transfer 5
IsPureAs multi_esdt_nft p call t = (n : ℕ) × (0 < n) × IsCall call multi_transfer (3 + n * 3)

abbrev pub IsPure : ParserInput → Option (List ℕ) → ParsedTransfer → Type 0
IsPure p call t = IsPureAs t.transfer_type p call t × (t.sender ≡ p.sender)

abbrev AllPure : ParserInput → Option (List ℕ) → Parsed → Type 0
AllPure p call r = All (IsPure p call) (transfers_of r)
