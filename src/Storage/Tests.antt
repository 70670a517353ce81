-- ===== src/Storage/Tests.antt =====
-- Runs of the settlement storage, and its theorems at concrete inputs.
use blockrun_multiversx_plat.Base.{
  ◌↔◌, ◌++◌, ◌≤◌, String, ◌≡◌, refl, inl, inr, none, some, List, [], ◌∷◌, ℕ_key, text_key,
}
use blockrun_multiversx_plat.Base.Dict.{get, set, values}
use blockrun_multiversx_plat.Base.Thrown.{ok}
use blockrun_multiversx_plat.Base.Lists.{length, Member}
use blockrun_multiversx_plat.Base.Text.{units_key}
use blockrun_multiversx_plat.Base.Int.{ℤ, pos, ◌+ℤ◌, trim, big_int_units, big_int}
use blockrun_multiversx_plat.Storage.Defs.{
  SettlementStatus, pending, completed, SettlementRecord, StatusUpdateDetails, Storage,
  empty_storage, save, get_by_id, get_by_signature_hash, update_status, SettlementFilter, matching,
  list, count, SettlementSummary, amount_of, add_revenue, tally, tally_all, get_summary,
}
use blockrun_multiversx_plat.Storage.Index.{IsIndexed, save-IsIndexed}
use blockrun_multiversx_plat.Storage.Refined.{
  StorageCall, saves, updates, perform_all, specified_all, AllPermitted, perform_all-specified,
}
use blockrun_multiversx_plat.Storage.Pages.{Meets, list-Meets}

abbrev paid : String → String → String → SettlementStatus → SettlementRecord
paid i hash amount status = record {
  id = i;
  signature_hash = hash;
  payer = "alice";
  receiver = "bob";
  asset = "USDC-c76f1f";
  amount = amount;
  status = status;
  tx_hash = none;
  error_reason = none;
  error_code = none;
  created_at = 10;
  updated_at = 10;
  valid_before = none;
}

abbrev all_of : SettlementFilter
all_of = record {
  payer = none;
  receiver = none;
  status = none;
  asset = none;
  from_date = none;
  to_date = none;
}

abbrev two : Storage
two = record {
  records = ("a", paid "a" "x" "5" completed) ∷ ("b", paid "b" "y" "7" pending) ∷ [];
  sig_hash_index = ("x", "a") ∷ ("y", "b") ∷ [];
}

saving : Unit {0}
unfolding save update_status list matching count get_summary tally_all tally add_revenue get set
    get_by_signature_hash get_by_id ◌+ℤ◌ big_int big_int_units trim
saving = tt

empty-IsIndexed : IsIndexed empty_storage
unfolding get
empty-IsIndexed = record { id_of = λ i r e. cc; hash_of = λ h i e. cc }

one-IsIndexed : IsIndexed (save (paid "a" "x" "5" pending) empty_storage)
unfolding get
one-IsIndexed = save-IsIndexed (paid "a" "x" "5" pending) empty_storage empty-IsIndexed λ old e. cc

abbrev no_details : StatusUpdateDetails
no_details = record { tx_hash = some "h"; error_reason = none; error_code = none }

list-Meets_example :
    ((r : SettlementRecord)
      → Member r (list all_of none none two) ↔ (Member r (values two.records) × Meets all_of r))
    × (list all_of (some 0) none two ≡ list all_of none none two)
    × (length (list all_of (some 0) (some 1) two) ≤ 1)
    × (list all_of (some 0) (some 1) two ++ list all_of (some 1) none two
        ≡ list all_of (some 0) none two)
list-Meets_example = list-Meets all_of 0 1 two

abbrev summed : SettlementSummary
summed = record {
  total_count = 2;
  completed_count = 1;
  failed_count = 0;
  pending_count = 1;
  total_completed_revenue_micro_usdc = pos 5;
  revenue_by_asset = ("USDC-c76f1f", pos 5) ∷ [];
}

summary_of_two : get_summary all_of two ≡ ok summed
unfolding saving
summary_of_two = refl

two_amounts :
    (r : SettlementRecord)
    → Member r (list all_of none none two)
    → r.status ≡ completed
    → (z : ℤ) × (amount_of r ≡ ok z)
unfolding saving
two_amounts r (inl e) c = (pos 5, rw e refl)
two_amounts r (inr (inl e)) c = (pos 7, rw e refl)
two_amounts r (inr (inr there)) c = absurd there

abbrev settled_once : List StorageCall
settled_once = saves (paid "a" "x" "5" pending) ∷ updates 20 "a" completed no_details ∷ []

permitted : AllPermitted settled_once empty_storage
unfolding get
permitted = ((refl, λ old e. cc), (tt, tt))

perform_all-specified_example :
    get_by_signature_hash "x" (perform_all settled_once empty_storage)
    ≡ specified_all "x" settled_once (get_by_signature_hash "x" empty_storage)
perform_all-specified_example =
    perform_all-specified "x" settled_once empty_storage empty-IsIndexed permitted
