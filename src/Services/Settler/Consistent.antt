-- ===== src/Services/Settler/Consistent.antt =====
-- src/services/settler.ts: `settle` keeps the storage consistent, and hands to the network only what
-- was verified, built and simulated.
use blockrun_multiversx_plat.Base.{
  ℕ, String, ◌≡◌, refl, ap, ◌∙◌, ◌⊎◌, inl, inr, Option, none, some, ℕ_key, text_key, if_both,
}
use blockrun_multiversx_plat.Base.Thrown.{Thrown, ok, err}
use blockrun_multiversx_plat.Base.Text.{units_key}
use blockrun_multiversx_plat.Domain.{Request, VerifyResponse}
use blockrun_multiversx_plat.Services.Chain.{Tx}
use blockrun_multiversx_plat.Storage.Defs.{
  SettlementStatus, pending, failed, SettlementRecord, Storage, get_by_id, get_by_signature_hash,
}
use blockrun_multiversx_plat.Storage.Index.{
  IsIndexed, Replaces, save-IsIndexed, update_status-IsIndexed, get_by_signature_hash_sound,
}
use blockrun_multiversx_plat.Services.Settler.Defs.{
  State, Config, Failure, fresh_record, simulated, broadcast,
}
use blockrun_multiversx_plat.Services.Settler.Settle.{
  Answer, settle_failed, settle_completed, settle_sent, settle_checked, settle_built,
  settle_accepted, settle_refused, settle_verified, settle_new, settle,
}
use blockrun_multiversx_plat.Services.Settler.Recorded.{IsFresh}

pub fresh-Replaces :
    (now : ℕ) (uuid hash : String) (existing : Option SettlementRecord) (q : Request) (s : Storage)
    (status : SettlementStatus) (f : Option Failure)
    → IsIndexed s
    → IsFresh uuid s
    → get_by_signature_hash hash s ≡ existing
    → Replaces (fresh_record now uuid hash existing q status f) s
unfolding fresh_record get_by_id
fresh-Replaces now uuid hash none q s status f indexed fresh known old e = cc (fresh.1, e)
fresh-Replaces now uuid hash (some r) q s status f indexed fresh known old e =
    let (same, named, there) = get_by_signature_hash_sound hash s r indexed known in
    let one : old ≡ r = cc (e, there) in ap (λ y. y.signature_hash) one ∙ same

module _ {Addr Bytes Signer : Type 0} (c : Config Addr Bytes Signer) (now : ℕ) (q : Request) where
  settle_sent-IsIndexed :
      (i : String) (r : Failure ⊎ String) (st : State Addr Bytes Signer)
      → IsIndexed st.storage
      → IsIndexed (settle_sent c now i q r st).1.storage
  unfolding settle_sent settle_failed settle_completed
  settle_sent-IsIndexed i (inl f) st h = update_status-IsIndexed now i _ _ st.storage h
  settle_sent-IsIndexed i (inr x) st h = update_status-IsIndexed now i _ _ st.storage h

  settle_checked-IsIndexed :
      (i : String) (t : Tx Addr Bytes) (f : Option Failure) (st : State Addr Bytes Signer)
      → IsIndexed st.storage
      → IsIndexed (settle_checked c now i q t f st).1.storage
  unfolding settle_checked settle_failed
  settle_checked-IsIndexed i t (some f) st h = update_status-IsIndexed now i _ _ st.storage h
  settle_checked-IsIndexed i t none st h = settle_sent-IsIndexed i (broadcast c t) _ h

  settle_built-IsIndexed :
      (i : String) (t : Thrown (Tx Addr Bytes)) (st : State Addr Bytes Signer)
      → IsIndexed st.storage
      → IsIndexed (settle_built c now i q t st).1.storage
  unfolding settle_built settle_failed
  settle_built-IsIndexed i (err m) st h = update_status-IsIndexed now i _ _ st.storage h
  settle_built-IsIndexed i (ok t) st h = settle_checked-IsIndexed i t (simulated c t) st h

  settle_verified-IsIndexed :
      (uuid hash : String) (existing : Option SettlementRecord) (st : State Addr Bytes Signer)
      (v : Thrown VerifyResponse)
      → IsIndexed st.storage
      → IsFresh uuid st.storage
      → get_by_signature_hash hash st.storage ≡ existing
      → IsIndexed (settle_verified c now uuid hash existing q v st).1.storage
  unfolding settle_verified settle_accepted settle_refused
  settle_verified-IsIndexed uuid hash existing st (err m) h fresh known = h
  settle_verified-IsIndexed uuid hash existing st (ok v) h fresh known =
      let saved = λ (status : SettlementStatus) (f : Option Failure).
        save-IsIndexed (fresh_record now uuid hash existing q status f) st.storage h
          (fresh-Replaces now uuid hash existing q st.storage status f h fresh known) in
      if_both (λ (x : Answer Addr Bytes Signer). IsIndexed x.1.storage) v.is_valid _ _
        (settle_built-IsIndexed _ _ _ (saved pending none)) (saved failed _)

settle_new-IsIndexed :
    {Addr Bytes Signer : Type 0} (c : Config Addr Bytes Signer) (now : ℕ) (uuid hash : String)
    (existing : Option SettlementRecord) (q : Request) (st : State Addr Bytes Signer)
    (settled : Option (String × String))
    → IsIndexed st.storage
    → IsFresh uuid st.storage
    → get_by_signature_hash hash st.storage ≡ existing
    → IsIndexed (settle_new c now uuid hash existing q st settled).1.storage
unfolding settle_new
settle_new-IsIndexed c now uuid hash existing q st (some (x, p)) h fresh known = h
settle_new-IsIndexed c now uuid hash existing q st none h fresh known =
    settle_verified-IsIndexed c now q uuid hash existing _ _ h fresh known

-- A settlement with a new id keeps the storage consistent, whatever it answers or throws.
pub settle-IsIndexed :
    {Addr Bytes Signer : Type 0} (c : Config Addr Bytes Signer) (now : ℕ) (uuid : String)
    (q : Request) (st : State Addr Bytes Signer)
    → IsIndexed st.storage
    → IsFresh uuid st.storage
    → IsIndexed (settle c now uuid q st).1.storage
unfolding settle
settle-IsIndexed c now uuid q st h fresh = settle_new-IsIndexed c now uuid _ _ q st _ h fresh refl
