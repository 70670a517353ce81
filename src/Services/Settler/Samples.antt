-- ===== src/Services/Settler/Samples.antt =====
-- A settler in miniature, for the tests of the settler and of its users.
use blockrun_multiversx_plat.Base.{ℕ, String, true, some, [], ℕ_key, text_key}
use blockrun_multiversx_plat.Base.Dict.{get, set}
use blockrun_multiversx_plat.Base.Thrown.{ok}
use blockrun_multiversx_plat.Base.Text.{show_ℕ, same_units, units_key}
use blockrun_multiversx_plat.Base.Int.{trim, big_int_units, big_int}
use blockrun_multiversx_plat.Parsing.Defs.{
  decode_transaction_data, extract_chain_id, native_part, token_step, parse_transaction_transfers,
}
use blockrun_multiversx_plat.Relayers.Pool.Defs.{
  get_next_relayer_for_shard, get_all_relayers_for_shard, get_relayer_for_address,
  get_relayer_by_address,
}
use blockrun_multiversx_plat.Services.Chain.{is_success}
use blockrun_multiversx_plat.Services.Samples.{chain, answering, relaying}
use blockrun_multiversx_plat.Services.Verifier.Defs.{
  check_accepted, check_chain, check_gas, check_window, check_match, check_listed, check_transfers,
  check_simulation,
}
use blockrun_multiversx_plat.Services.Verifier.Verify.{
  parse_addresses, build_transaction, check_sender, check_guardian, check_relayer_shard,
  check_relayer_signature, countersigned, request_checks, signature_checks, prepare, simulate_step,
  verify_prepared, verify,
}
use blockrun_multiversx_plat.Storage.Defs.{
  empty_storage, save, get_by_signature_hash, update_status,
}
use blockrun_multiversx_plat.Services.Settler.Defs.{
  State, Config, already_settled, fresh_record, choose_relayer, sign_as_relayer, construct,
  simulated, broadcast,
}
use blockrun_multiversx_plat.Services.Settler.Settle.{
  settle_failed, settle_completed, settle_sent, settle_checked, settle_built, settle_accepted,
  settle_refused, settle_verified, settle_new, settle,
}

-- The hash of a signature is the signature, and the network takes every transaction.
abbrev pub settling : Config String String ℕ
settling = record {
  sdk = chain;
  compute_signature_hash = λ s. s;
  verifier = verify chain (some answering);
  simulate_before_broadcast = true;
  simulate_transaction = answering;
  send_transaction = λ t. ok "0xabc";
}

abbrev pub start : State String String ℕ
start = record { storage = empty_storage; pool = relaying; sent = [] }

-- The definitions that a run of the settler computes with.
unfoldable pub run_settler : Unit {0}
unfolding settle settle_new settle_verified settle_accepted settle_refused settle_built
    settle_checked settle_sent settle_completed settle_failed broadcast simulated construct
    sign_as_relayer choose_relayer fresh_record already_settled get_by_signature_hash save
    update_status verify request_checks check_accepted check_chain check_gas check_window
    check_transfers check_listed check_match parse_transaction_transfers native_part token_step
    decode_transaction_data extract_chain_id same_units prepare parse_addresses build_transaction
    verify_prepared signature_checks check_sender check_guardian check_relayer_shard
    check_relayer_signature get_all_relayers_for_shard simulate_step countersigned
    get_relayer_for_address get_next_relayer_for_shard get_relayer_by_address check_simulation
    is_success get set show_ℕ big_int big_int_units trim
run_settler = tt
