-- ===== src/Storage/Lookup.antt =====
-- src/storage/memory_storage.ts: what is found by a hash after the operations that write.
use blockrun_multiversx_plat.Base.{ℕ, String, ◌≡◌, true, some, arith, ℕ_key, text_key}
use blockrun_multiversx_plat.Base.Dict.{get, get-set_self}
use blockrun_multiversx_plat.Base.Text.{truthy, units_key}
use blockrun_multiversx_plat.Storage.Defs.{
  SettlementStatus, SettlementRecord, StatusUpdateDetails, Storage, save, get_by_signature_hash,
  updated, update_status,
}

-- The hash leads to the record, under an id that is not empty.
pub record Stored (hash i : String) (r : SettlementRecord) (s : Storage) : Type 0 where
  pub indexed : get hash s.sig_hash_index ≡ some i
  pub there : get i s.records ≡ some r
  pub named : truthy i ≡ true

pub Stored-save :
    (r : SettlementRecord) (s : Storage)
    → truthy r.id ≡ true
    → Stored r.signature_hash r.id r (save r s)
unfolding save
Stored-save r s named = record {
  indexed = get-set_self r.signature_hash r.id s.sig_hash_index;
  there = get-set_self r.id r s.records;
  named = named;
}

pub Stored-update_status :
    (now : ℕ) (hash i : String) (status : SettlementStatus) (details : StatusUpdateDetails)
    (r : SettlementRecord) (s : Storage)
    → Stored hash i r s
    → Stored hash i (updated now status details r) (update_status now i status details s)
unfolding update_status
Stored-update_status now hash i status details r s h =
    rw (h.there, update_status)
      (record {
        indexed = h.indexed;
        there = get-set_self i (updated now status details r) s.records;
        named = h.named;
      })

pub Stored-found :
    (hash i : String) (r : SettlementRecord) (s : Storage)
    → Stored hash i r s
    → get_by_signature_hash hash s ≡ some r
unfolding get_by_signature_hash
Stored-found hash i r s h = ground (arith, h.indexed, h.there, h.named)

-- An update of the status that finds the record keeps who pays whom, what and when, and
-- keeps each result that it is given no new value for.
pub update_status-found :
    (now : ℕ) (hash i : String) (status : SettlementStatus) (details : StatusUpdateDetails)
    (r : SettlementRecord) (s : Storage)
    → Stored hash i r s
    → get_by_signature_hash hash (update_status now i status details s)
      ≡ some (updated now status details r)
update_status-found now hash i status details r s h =
    Stored-found hash i _ _ (Stored-update_status now hash i status details r s h)
