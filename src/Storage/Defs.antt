-- ===== src/Storage/Defs.antt =====
-- src/storage/types.ts and src/storage/memory_storage.ts. Records are values here, as the code copies
-- each one that goes in or out. An amount of revenue is the integer whose decimal text the code keeps.
use blockrun_multiversx_plat.Base.{
  ℕ, ◌+◌, String, ◌≡◌, refl, ◌⊎◌, inl, inr, Bool, true, false, not, ◌||◌, Option, none, some, List,
  [], ◌∷◌, leb, if◌then◌else◌, ◌===◌, ℕ_key, text_key, or_else,
}
use blockrun_multiversx_plat.Base.Dict.{Dict, get, set, values}
use blockrun_multiversx_plat.Base.Thrown.{Thrown, ok, ◌>>=◌}
use blockrun_multiversx_plat.Base.Lists.{length, take, drop, filter}
use blockrun_multiversx_plat.Base.Text.{units, truthy, includes, units_key}
use blockrun_multiversx_plat.Base.Int.{ℤ, pos, ◌+ℤ◌, big_int}
use blockrun_multiversx_plat.Domain.{PaymentErrorCode}

pub data SettlementStatus : Type 0 where
  pending completed failed : SettlementStatus

pub record SettlementRecord : Type 0 where
  pub id : String
  pub signature_hash : String
  pub payer : String
  pub receiver : String
  pub asset : String
  pub amount : String
  pub status : SettlementStatus
  pub tx_hash : Option String
  pub error_reason : Option (List ℕ)
  pub error_code : Option PaymentErrorCode
  pub created_at : ℕ
  pub updated_at : ℕ
  pub valid_before : Option ℕ

pub record StatusUpdateDetails : Type 0 where
  pub tx_hash : Option String
  pub error_reason : Option (List ℕ)
  pub error_code : Option PaymentErrorCode

pub record Storage : Type 0 where
  pub records : Dict String SettlementRecord
  pub sig_hash_index : Dict String String

abbrev pub empty_storage : Storage
empty_storage = record { records = []; sig_hash_index = [] }

unfoldable pub save : SettlementRecord → Storage → Storage
save r s = record {
  records = set r.id r s.records;
  sig_hash_index = set r.signature_hash r.id s.sig_hash_index;
}

unfoldable pub get_by_id : String → Storage → Option SettlementRecord
get_by_id i s = get i s.records

-- The empty text is no id.
abbrev pub by_id_of : Option String → Storage → Option SettlementRecord
by_id_of none s = none
by_id_of (some i) s = if truthy i then get i s.records else none

unfoldable pub get_by_signature_hash : String → Storage → Option SettlementRecord
get_by_signature_hash hash s = by_id_of (get hash s.sig_hash_index) s

-- `a !== undefined ? a : b`
abbrev pub given {ℓ} : {A : Type ℓ} → Option A → Option A → Option A
given none b = b
given (some a) b = some a

abbrev pub updated :
    ℕ → SettlementStatus → StatusUpdateDetails → SettlementRecord → SettlementRecord
updated now status details r = record r {
  status = status;
  updated_at = now;
  tx_hash = given details.tx_hash r.tx_hash;
  error_reason = given details.error_reason r.error_reason;
  error_code = given details.error_code r.error_code;
}

unfoldable pub update_status :
    ℕ → String → SettlementStatus → StatusUpdateDetails → Storage → Storage
update_status now i status details s = elim (get i s.records) [
  | none ↦ s
  | some r ↦ record s { records = set i (updated now status details r) s.records }
]

abbrev pub same_status : SettlementStatus → SettlementStatus → Bool
same_status pending pending = true
same_status completed completed = true
same_status failed failed = true
same_status _ _ = false

pub status_cases : (s : SettlementStatus) → (s ≡ pending) ⊎ ((s ≡ completed) ⊎ (s ≡ failed))
status_cases pending = inl refl
status_cases completed = inr (inl refl)
status_cases failed = inr (inr refl)

-- The page is apart from the criteria: `count` and `getSummary` drop it.
pub record SettlementFilter : Type 0 where
  pub payer : Option String
  pub receiver : Option String
  pub status : Option SettlementStatus
  pub asset : Option String
  pub from_date : Option ℕ
  pub to_date : Option ℕ

-- A criterion that is missing or empty lets every record pass.
abbrev pub wants : Option String → String → Bool
wants none t = true
wants (some s) t = not (truthy s) || t === s

abbrev pub wants_status : Option SettlementStatus → SettlementStatus → Bool
wants_status none t = true
wants_status (some s) t = same_status t s

abbrev pub at_least : Option ℕ → ℕ → Bool
at_least none t = true
at_least (some n) t = leb n t

abbrev pub at_most : Option ℕ → ℕ → Bool
at_most none t = true
at_most (some n) t = leb t n

-- The criteria, filtered one after the other.
unfoldable pub matching : SettlementFilter → List SettlementRecord → List SettlementRecord
matching f rs =
    filter (λ (r : SettlementRecord). at_most f.to_date r.created_at)
      (filter (λ (r : SettlementRecord). at_least f.from_date r.created_at)
        (filter (λ (r : SettlementRecord). wants f.asset r.asset)
          (filter (λ (r : SettlementRecord). wants_status f.status r.status)
            (filter (λ (r : SettlementRecord). wants f.receiver r.receiver)
              (filter (λ (r : SettlementRecord). wants f.payer r.payer) rs)))))

unfoldable pub list : SettlementFilter → Option ℕ → Option ℕ → Storage → List SettlementRecord
unfolding matching
list f offset limit s =
    let results = matching f (values s.records) in
    take (or_else limit (length results)) (drop (or_else offset 0) results)

unfoldable pub count : SettlementFilter → Storage → ℕ
unfolding list
count f s = length (list f none none s)

-- The summary, less the total in dollars that is made for display.
pub record SettlementSummary : Type 0 where
  pub total_count : ℕ
  pub completed_count : ℕ
  pub failed_count : ℕ
  pub pending_count : ℕ
  pub total_completed_revenue_micro_usdc : ℤ
  pub revenue_by_asset : Dict String ℤ

abbrev pub no_revenue : SettlementSummary
no_revenue = record {
  total_count = 0;
  completed_count = 0;
  failed_count = 0;
  pending_count = 0;
  total_completed_revenue_micro_usdc = pos 0;
  revenue_by_asset = [];
}

-- `BigInt(r.amount || "0")`
abbrev pub amount_of : SettlementRecord → Thrown ℤ
amount_of r = if truthy r.amount then big_int r.amount else ok (pos 0)

unfoldable pub add_revenue : SettlementSummary → SettlementRecord → ℤ → SettlementSummary
add_revenue s r added = record s {
  completed_count = s.completed_count + 1;
  revenue_by_asset =
      set r.asset (or_else (get r.asset s.revenue_by_asset) (pos 0) +ℤ added) s.revenue_by_asset;
  total_completed_revenue_micro_usdc =
      if includes (units r.asset) (units "USDC")
      then s.total_completed_revenue_micro_usdc +ℤ added
      else s.total_completed_revenue_micro_usdc;
}

-- One turn of the loop.
unfoldable pub tally : SettlementSummary → SettlementRecord → Thrown SettlementSummary
tally s r = elim r.status [
  | completed ↦ amount_of r >>= λ added. ok (add_revenue s r added)
  | failed ↦ ok (record s { failed_count = s.failed_count + 1 })
  | pending ↦ ok (record s { pending_count = s.pending_count + 1 })
]

unfoldable pub tally_all : SettlementSummary → List SettlementRecord → Thrown SettlementSummary
tally_all s [] = ok s
tally_all s (r ∷ rs) = tally s r >>= λ t. tally_all t rs

unfoldable pub get_summary : SettlementFilter → Storage → Thrown SettlementSummary
unfolding list
get_summary f s =
    let rs = list f none none s in tally_all (record no_revenue { total_count = length rs }) rs
