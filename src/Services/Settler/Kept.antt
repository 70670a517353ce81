-- ===== src/Services/Settler/Kept.antt =====
-- src/services/settler.ts: what other calls of `settle` leave of a completed settlement.
use blockrun_multiversx_plat.Base.{
  ℕ, String, ◌≡◌, refl, sym, ap, ◌∙◌, subst, ◌⊎◌, inl, inr, true, false, Option, none, some, arith,
  ◌===◌, ℕ_key, text_key, ===_refl, Bool-cases, if_both,
}
use blockrun_multiversx_plat.Base.Dict.{get}
use blockrun_multiversx_plat.Base.Thrown.{Thrown, ok, err}
use blockrun_multiversx_plat.Base.Text.{truthy, units_key}
use blockrun_multiversx_plat.Domain.{Request, transaction_of, VerifyResponse}
use blockrun_multiversx_plat.Storage.Defs.{
  SettlementStatus, pending, failed, SettlementRecord, StatusUpdateDetails, Storage, save,
  get_by_id, get_by_signature_hash, update_status,
}
use blockrun_multiversx_plat.Services.Chain.{Tx}
use blockrun_multiversx_plat.Storage.Index.{
  IsIndexed, Replaces, save-IsIndexed, update_status-IsIndexed, get_by_signature_hash_sound,
}
use blockrun_multiversx_plat.Services.Settler.Defs.{
  State, Config, Failure, already_settled, fresh_record, simulated, broadcast,
}
use blockrun_multiversx_plat.Services.Settler.Settle.{
  Answer, settle_failed, settle_completed, settle_sent, settle_checked, settle_built,
  settle_accepted, settle_refused, settle_verified, settle_new, settle,
}
use blockrun_multiversx_plat.Services.Settler.Recorded.{IsFresh, fresh-named}
use blockrun_multiversx_plat.Services.Settler.Consistent.{fresh-Replaces}
use blockrun_multiversx_plat.Storage.Defs.{pending, failed}
use blockrun_multiversx_plat.Storage.Refined.{
  saves, updates, specified, save-specified, update_status-specified,
}

-- The record is found under a hash, in a storage whose index and records agree.
abbrev pub IsKept : String → SettlementRecord → Storage → Type 0
IsKept hash x s = IsIndexed s × (get_by_signature_hash hash s ≡ some x)

-- A status that is updated under another id.
update_status-IsKept :
    (hash : String) (x : SettlementRecord) (now : ℕ) (i : String) (status : SettlementStatus)
    (details : StatusUpdateDetails) (s : Storage)
    → (x.id === i) ≡ false
    → IsKept hash x s
    → IsKept hash x (update_status now i status details s)
update_status-IsKept hash x now i status details s apart (indexed, there) = (
  update_status-IsIndexed now i status details s indexed,
  update_status-specified hash i now status details s indexed
      ∙ ap (specified hash (updates now i status details)) there
      ∙ ground (arith, apart),
)

-- A record that is saved under another hash.
save-IsKept :
    (hash : String) (x r : SettlementRecord) (s : Storage)
    → truthy r.id ≡ true
    → Replaces r s
    → (r.signature_hash === hash) ≡ false
    → IsKept hash x s
    → IsKept hash x (save r s)
save-IsKept hash x r s named new apart (indexed, there) = (
  save-IsIndexed r s indexed new,
  save-specified hash r s indexed named new
      ∙ ap (specified hash (saves r)) there
      ∙ ground (arith, apart),
)

module _ {Addr Bytes Signer : Type 0} (c : Config Addr Bytes Signer) (hash : String)
    (x : SettlementRecord) (now : ℕ) (q : Request) where
  module _ (i : String) (apart : (x.id === i) ≡ false) where
    settle_sent-IsKept :
        (r : Failure ⊎ String) (st : State Addr Bytes Signer)
        → IsKept hash x st.storage
        → IsKept hash x (settle_sent c now i q r st).1.storage
    unfolding settle_sent settle_failed settle_completed
    settle_sent-IsKept (inl f) st h = update_status-IsKept hash x now i _ _ st.storage apart h
    settle_sent-IsKept (inr y) st h = update_status-IsKept hash x now i _ _ st.storage apart h

    settle_checked-IsKept :
        (t : Tx Addr Bytes) (f : Option Failure) (st : State Addr Bytes Signer)
        → IsKept hash x st.storage
        → IsKept hash x (settle_checked c now i q t f st).1.storage
    unfolding settle_checked settle_failed
    settle_checked-IsKept t (some f) st h = update_status-IsKept hash x now i _ _ st.storage apart h
    settle_checked-IsKept t none st h = settle_sent-IsKept (broadcast c t) _ h

    settle_built-IsKept :
        (t : Thrown (Tx Addr Bytes)) (st : State Addr Bytes Signer)
        → IsKept hash x st.storage
        → IsKept hash x (settle_built c now i q t st).1.storage
    unfolding settle_built settle_failed
    settle_built-IsKept (err m) st h = update_status-IsKept hash x now i _ _ st.storage apart h
    settle_built-IsKept (ok t) st h = settle_checked-IsKept t (simulated c t) st h

  -- The id under which a settlement of another hash is stored.
  other_id :
      (uuid other : String) (existing : Option SettlementRecord) (s : Storage)
      (status : SettlementStatus) (f : Option Failure)
      → IsKept hash x s
      → IsFresh uuid s
      → get_by_signature_hash other s ≡ existing
      → (other === hash) ≡ false
      → (x.id === (fresh_record now uuid other existing q status f).id) ≡ false
  unfolding fresh_record get_by_id
  other_id uuid other none s status f (indexed, there) fresh known apart =
      let (same, named, stored) = get_by_signature_hash_sound hash s x indexed there in
      elim (Bool-cases (x.id === uuid)) [
        | inr differs ↦ differs
        | inl taken ↦
            let e : x.id ≡ uuid = (text_key.same_iff x.id uuid).0 taken in
            absurd (cc (e, stored, fresh.1))
      ]
  other_id uuid other (some r) s status f (indexed, there) fresh known apart =
      let (same, named, stored) = get_by_signature_hash_sound hash s x indexed there in
      let (same', named', stored') = get_by_signature_hash_sound other s r indexed known in
      elim (Bool-cases (x.id === r.id)) [
        | inr differs ↦ differs
        | inl taken ↦
            let e : x.id ≡ r.id = (text_key.same_iff x.id r.id).0 taken in
            let one : some x ≡ some r = sym stored ∙ ap (λ k. get k s.records) e ∙ stored' in
            let hashes : other ≡ hash = cc (one, same, same') in
            absurd (ground (arith, hashes, apart, ===_refl hash))
      ]

  saved_hash :
      (uuid other : String) (existing : Option SettlementRecord) (status : SettlementStatus)
      (f : Option Failure)
      → (other === hash) ≡ false
      → ((fresh_record now uuid other existing q status f).signature_hash === hash) ≡ false
  unfolding fresh_record
  saved_hash uuid other existing status f apart = apart

  settle_verified-IsKept :
      (uuid other : String) (existing : Option SettlementRecord) (st : State Addr Bytes Signer)
      (v : Thrown VerifyResponse)
      → IsKept hash x st.storage
      → IsFresh uuid st.storage
      → get_by_signature_hash other st.storage ≡ existing
      → (other === hash) ≡ false
      → IsKept hash x (settle_verified c now uuid other existing q v st).1.storage
  unfolding settle_verified settle_accepted settle_refused
  settle_verified-IsKept uuid other existing st (err m) h fresh known apart = h
  settle_verified-IsKept uuid other existing st (ok v) h fresh known apart =
      let saved = λ (status : SettlementStatus) (f : Option Failure).
        save-IsKept hash x (fresh_record now uuid other existing q status f) st.storage
          (fresh-named now uuid other existing q st.storage h.0 fresh known status f)
          (fresh-Replaces now uuid other existing q st.storage status f h.0 fresh known)
          (saved_hash uuid other existing status f apart) h in
      if_both (λ (y : Answer Addr Bytes Signer). IsKept hash x y.1.storage) v.is_valid _ _
        (settle_built-IsKept _
          (other_id uuid other existing st.storage pending none h fresh known apart) _ _
          (saved pending none))
        (saved failed _)

  settle_new-IsKept :
      (uuid other : String) (existing : Option SettlementRecord) (st : State Addr Bytes Signer)
      (settled : Option (String × String))
      → IsKept hash x st.storage
      → IsFresh uuid st.storage
      → get_by_signature_hash other st.storage ≡ existing
      → (other === hash) ≡ false
      → IsKept hash x (settle_new c now uuid other existing q st settled).1.storage
  unfolding settle_new
  settle_new-IsKept uuid other existing st (some y) h fresh known apart = h
  settle_new-IsKept uuid other existing st none h fresh known apart =
      settle_verified-IsKept uuid other existing _ _ h fresh known apart

  -- A settlement of any payment keeps the record of one that is completed, be it of the same payment or
  -- of another.
  pub settle-IsKept :
      (uuid : String) (st : State Addr Bytes Signer) (done : String × String)
      → already_settled (some x) ≡ some done
      → IsFresh uuid st.storage
      → IsKept hash x st.storage
      → IsKept hash x (settle c now uuid q st).1.storage
  unfolding settle settle_new
  settle-IsKept uuid st done settled fresh h =
      let other = c.compute_signature_hash (transaction_of q.payload).signature in
      elim (Bool-cases (other === hash)) [
        | inr apart ↦ settle_new-IsKept uuid other _ st _ h fresh refl apart
        | inl same ↦
            let e : other ≡ hash = (text_key.same_iff other hash).0 same in
            let there : get_by_signature_hash other st.storage ≡ some x =
              ap (λ k. get_by_signature_hash k st.storage) e ∙ h.1 in
            subst
              (λ (o : Option (String × String)).
                IsKept hash x
                  (settle_new c now uuid other (get_by_signature_hash other st.storage) q st
                    o).1.storage)
              (sym (ap already_settled there ∙ settled)) h
      ]
