-- ===== src/Services/Verifier/Tests.antt =====
-- A payment run through the verifier, and what its valid verdict establishes.
use blockrun_multiversx_plat.Services.Samples.{paid, chain, answering, offer, relaying}
use blockrun_multiversx_plat.Services.Verifier.Answers.{Returns, Reads, Serves, verify-Returns}
use blockrun_multiversx_plat.Relayers.Pool.Defs.{
  has_shard, get_next_relayer_for_shard, get_all_relayers_for_shard, get_relayer_for_address,
}
use blockrun_multiversx_plat.Base.Int.{pos, trim, big_int_units, big_int}
use blockrun_multiversx_plat.Base.{or_else, subst, true, ◌≡◌, refl, some, ℕ_key, text_key}
use blockrun_multiversx_plat.Base.Dict.{get, set}
use blockrun_multiversx_plat.Base.Thrown.{ok}
use blockrun_multiversx_plat.Base.Text.{units, show_ℕ, same_units, units_key}
use blockrun_multiversx_plat.Domain.{payment_expired}
use blockrun_multiversx_plat.Parsing.Defs.{
  decode_transaction_data, extract_chain_id, native_part, token_step, parse_transaction_transfers,
}
use blockrun_multiversx_plat.Services.Chain.{is_success}
use blockrun_multiversx_plat.Services.Verifier.Defs.{
  check_accepted, check_chain, check_gas, check_window, check_match, check_listed, check_transfers,
  check_simulation,
}
use blockrun_multiversx_plat.Services.Verifier.Verify.{
  parse_addresses, build_transaction, check_sender, check_guardian, check_relayer_shard,
  check_relayer_signature, countersigned, invalid, valid, request_checks, signature_checks, prepare,
  simulate_step, verify_prepared, verify,
}
use blockrun_multiversx_plat.Services.Verifier.Valid.{Established, verify-Established}

run_verifier : Unit {0}
unfolding verify request_checks check_accepted check_chain check_gas check_window check_transfers
    check_listed check_match parse_transaction_transfers native_part token_step
    decode_transaction_data extract_chain_id same_units prepare parse_addresses build_transaction
    verify_prepared signature_checks check_sender check_guardian check_relayer_shard
    check_relayer_signature get_all_relayers_for_shard simulate_step countersigned
    get_relayer_for_address get_next_relayer_for_shard check_simulation is_success get set show_ℕ
    big_int big_int_units trim
run_verifier = tt

paid_is_valid : (verify chain (some answering) 99000 relaying offer).0 ≡ ok (valid "alice")
unfolding run_verifier
paid_is_valid = refl

late_is_expired :
    (verify chain (some answering) 100000 relaying offer).0
    ≡ ok (
        invalid "alice" (record {
          code = payment_expired;
          reason = units "Transaction has expired: validBefore 100 is in the past";
        }))
unfolding run_verifier
late_is_expired = refl

verify-Established_example : Established chain (some answering) 99000 relaying offer
verify-Established_example =
    verify-Established chain (some answering) 99000 relaying offer (valid "alice") paid_is_valid
      refl

relaying-Serves : Serves chain relaying paid
unfolding has_shard get
relaying-Serves p e = (0, refl, subst (λ o. has_shard (or_else o p) 0 ≡ true) e refl)

five-Reads : Reads "5"
unfolding big_int big_int_units trim
five-Reads = (pos 5, refl)

seven-Reads : Reads "7"
unfolding big_int big_int_units trim
seven-Reads = (pos 7, refl)

verify-Returns_example : Returns (verify chain (some answering) 99000 relaying offer).0
verify-Returns_example =
    verify-Returns chain (some answering) 99000 relaying offer five-Reads five-Reads seven-Reads
      relaying-Serves
