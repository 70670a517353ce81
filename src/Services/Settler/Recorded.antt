-- ===== src/Services/Settler/Recorded.antt =====
-- src/services/settler.ts: what `settle` answers is what its record says.
use blockrun_multiversx_plat.Base.{
  ℕ, String, ◌≡◌, refl, sym, ap, ◌∙◌, ◌⊎◌, inl, inr, true, false, Option, none, some, arith, ℕ_key,
  text_key, or_else, Option-cases, if_both,
}
use blockrun_multiversx_plat.Base.Dict.{get}
use blockrun_multiversx_plat.Base.Thrown.{Thrown, ok, err, ok_inj}
use blockrun_multiversx_plat.Base.Text.{truthy, units_key}
use blockrun_multiversx_plat.Domain.{
  payment_invalid, Request, transaction_of, VerifyResponse, SettleResponse,
}
use blockrun_multiversx_plat.Services.Chain.{Tx}
use blockrun_multiversx_plat.Storage.Defs.{
  SettlementStatus, pending, completed, failed, SettlementRecord, Storage, save,
  get_by_signature_hash, given, status_cases,
}
use blockrun_multiversx_plat.Storage.Index.{IsIndexed, get_by_signature_hash_sound}
use blockrun_multiversx_plat.Storage.Lookup.{Stored, Stored-save, Stored-found, update_status-found}
use blockrun_multiversx_plat.Services.Settler.Defs.{
  State, Config, Failure, already_settled, fresh_record, simulated, broadcast,
}
use blockrun_multiversx_plat.Services.Settler.Settle.{
  Answer, settle_failed, settle_completed, settle_sent, settle_checked, settle_built,
  settle_accepted, settle_refused, settle_verified, settle_new, settle,
}

-- An answer and a record that say the same.
abbrev pub Agrees : SettleResponse → SettlementRecord → Type 0
Agrees a r =
    ((a.success ≡ true) × (r.status ≡ completed) × (r.tx_hash ≡ a.transaction))
    ⊎ ((a.success ≡ false)
        × (r.status ≡ failed)
        × (r.error_code ≡ a.error_code)
        × (r.error_reason ≡ a.error_reason))

-- After a call that returns, the record found under the hash agrees with the answer.
abbrev pub Recorded : {Addr Bytes Signer : Type 0} → String → Answer Addr Bytes Signer → Type 0
Recorded hash answer =
    (a : SettleResponse)
    → answer.0 ≡ ok a
    → (r : SettlementRecord) × (get_by_signature_hash hash answer.1.storage ≡ some r) × Agrees a r

given-none {ℓ} : {A : Type ℓ} (o : Option A) → given o none ≡ o
given-none none = refl
given-none (some a) = refl

-- An id that no record has yet and that is not empty.
abbrev pub IsFresh : String → Storage → Type 0
IsFresh uuid s = (truthy uuid ≡ true) × (get uuid s.records ≡ none)

module _ {Addr Bytes Signer : Type 0} (c : Config Addr Bytes Signer) (now : ℕ) (hash : String)
    (q : Request) where
  -- The pending record that the later steps complete or mark as failed.
  abbrev pub Pending : String → State Addr Bytes Signer → Type 0
  Pending i st = (r : SettlementRecord) × Stored hash i r st.storage × (r.error_reason ≡ none)

  settle_failed-Recorded :
      (i : String) (f : Failure) (st : State Addr Bytes Signer)
      → Pending i st
      → Recorded hash (settle_failed c now i q f st)
  unfolding settle_failed
  settle_failed-Recorded i f st (r, stored, clear) a e =
      let same = ok_inj _ _ e in
      (
        _,
        update_status-found now hash i failed _ r st.storage stored,
        inr (
          ap (λ x. x.success) (sym same),
          refl,
          ap (λ x. x.error_code) same,
          ap (given f.reason) clear ∙ given-none f.reason ∙ ap (λ x. x.error_reason) same,
        ),
      )

  settle_completed-Recorded :
      (i h : String) (st : State Addr Bytes Signer)
      → Pending i st
      → Recorded hash (settle_completed c now i q h st)
  unfolding settle_completed
  settle_completed-Recorded i h st (r, stored, clear) a e =
      let same = ok_inj _ _ e in
      (
        _,
        update_status-found now hash i completed _ r st.storage stored,
        inl (ap (λ x. x.success) (sym same), refl, ap (λ x. x.transaction) same),
      )

  settle_sent-Recorded :
      (i : String) (r : Failure ⊎ String) (st : State Addr Bytes Signer)
      → Pending i st
      → Recorded hash (settle_sent c now i q r st)
  unfolding settle_sent
  settle_sent-Recorded i (inl f) st p = settle_failed-Recorded i f st p
  settle_sent-Recorded i (inr h) st p = settle_completed-Recorded i h st p

  settle_checked-Recorded :
      (i : String) (t : Tx Addr Bytes) (f : Option Failure) (st : State Addr Bytes Signer)
      → Pending i st
      → Recorded hash (settle_checked c now i q t f st)
  unfolding settle_checked
  settle_checked-Recorded i t (some f) st p = settle_failed-Recorded i f st p
  settle_checked-Recorded i t none st p = settle_sent-Recorded i (broadcast c t) _ p

  settle_built-Recorded :
      (i : String) (t : Thrown (Tx Addr Bytes)) (st : State Addr Bytes Signer)
      → Pending i st
      → Recorded hash (settle_built c now i q t st)
  unfolding settle_built
  settle_built-Recorded i (err m) st p = settle_failed-Recorded i _ st p
  settle_built-Recorded i (ok t) st p = settle_checked-Recorded i t (simulated c t) st p

  module _ (uuid : String) (existing : Option SettlementRecord) (st : State Addr Bytes Signer)
      (named : (status : SettlementStatus) (f : Option Failure)
        → truthy (fresh_record now uuid hash existing q status f).id ≡ true) where
    fresh-Stored :
        (status : SettlementStatus) (f : Option Failure)
        → let r = fresh_record now uuid hash existing q status f in
          Stored hash r.id r (save r st.storage)
    unfolding fresh_record
    fresh-Stored status f = Stored-save _ st.storage (named status f)

    settle_accepted-Recorded : Recorded hash (settle_accepted c now uuid hash existing q st)
    unfolding settle_accepted fresh_record
    settle_accepted-Recorded = settle_built-Recorded _ _ _ (_, fresh-Stored pending none, refl)

    settle_refused-Recorded :
        (v : VerifyResponse) → Recorded hash (settle_refused c now uuid hash existing q v st)
    unfolding settle_refused fresh_record
    settle_refused-Recorded v a e =
        let same = ok_inj _ _ e in
        let f : Option Failure =
          some
            (record { reason = v.invalid_reason; code = or_else v.error_code payment_invalid }) in
        (
          _,
          Stored-found _ _ _ _ (fresh-Stored failed f),
          inr (
            ap (λ x. x.success) (sym same),
            refl,
            ap (λ x. x.error_code) same,
            ap (λ x. x.error_reason) same,
          ),
        )

    settle_verified-Recorded :
        (v : Thrown VerifyResponse)
        → Recorded hash (settle_verified c now uuid hash existing q v st)
    unfolding settle_verified
    settle_verified-Recorded (err m) = λ a e. cc
    settle_verified-Recorded (ok v) =
        if_both (Recorded hash) v.is_valid _ _ settle_accepted-Recorded (settle_refused-Recorded v)

  settle_new-Recorded :
      (uuid : String) (existing : Option SettlementRecord) (st : State Addr Bytes Signer)
      → ((status : SettlementStatus) (f : Option Failure)
          → truthy (fresh_record now uuid hash existing q status f).id ≡ true)
      → Recorded hash (settle_new c now uuid hash existing q st none)
  unfolding settle_new
  settle_new-Recorded uuid existing st named =
      settle_verified-Recorded uuid existing _ named (c.verifier now st.pool q).0

-- A settlement that is answered from its record.
pub already_settled_sound :
    (r : SettlementRecord) (h p : String)
    → already_settled (some r) ≡ some (h, p)
    → (r.status ≡ completed) × (r.tx_hash ≡ some h)
unfolding already_settled
already_settled_sound r h p e = elim (Option-cases r.tx_hash) [
  | inl missing ↦ absurd (ground (arith, e, missing))
  | inr (k, there) ↦ elim (status_cases r.status) [
    | inr (inl done) ↦ (done, ground (arith, e, there, done))
    | inl other ↦ absurd (ground (arith, e, there, other))
    | inr (inr other) ↦ absurd (ground (arith, e, there, other))
  ]
]

-- The record of a settlement has an id, be it the one before or a new one.
pub fresh-named :
    (now : ℕ) (uuid hash : String) (existing : Option SettlementRecord) (q : Request) (s : Storage)
    → IsIndexed s
    → IsFresh uuid s
    → get_by_signature_hash hash s ≡ existing
    → (status : SettlementStatus) (f : Option Failure)
    → truthy (fresh_record now uuid hash existing q status f).id ≡ true
unfolding fresh_record
fresh-named now uuid hash none q s indexed fresh known status f = fresh.0
fresh-named now uuid hash (some r) q s indexed fresh known status f =
    (get_by_signature_hash_sound hash s r indexed known).1

settled_or_new-Recorded :
    {Addr Bytes Signer : Type 0} (c : Config Addr Bytes Signer) (now : ℕ) (uuid hash : String)
    (existing : Option SettlementRecord) (q : Request) (st : State Addr Bytes Signer)
    (settled : Option (String × String))
    → IsIndexed st.storage
    → IsFresh uuid st.storage
    → get_by_signature_hash hash st.storage ≡ existing
    → already_settled existing ≡ settled
    → Recorded hash (settle_new c now uuid hash existing q st settled)
unfolding settle_new already_settled
settled_or_new-Recorded c now uuid hash existing q st none indexed fresh known e =
    settle_new-Recorded c now hash q uuid existing st
      (fresh-named now uuid hash existing q st.storage indexed fresh known)
settled_or_new-Recorded c now uuid hash none q st (some (h, p)) indexed fresh known e = cc
settled_or_new-Recorded c now uuid hash (some r) q st (some (h, p)) indexed fresh known e =
    λ a same.
      let (done, tx) = already_settled_sound r h p e in
      let one = ok_inj _ _ same in
      (r, known, inl (ap (λ x. x.success) (sym one), done, tx ∙ ap (λ x. x.transaction) one))

-- Whatever `settle` answers, on every path that returns, the record found under the hash of the
-- signature says the same: completed with the transaction of the answer, or failed with its reason
-- and code; where the storage is consistent and the random id is new.
pub settle-Recorded :
    {Addr Bytes Signer : Type 0} (c : Config Addr Bytes Signer) (now : ℕ) (uuid : String)
    (q : Request) (st : State Addr Bytes Signer)
    → IsIndexed st.storage
    → IsFresh uuid st.storage
    → Recorded
        (c.compute_signature_hash (transaction_of q.payload).signature)
        (settle c now uuid q st)
unfolding settle
settle-Recorded c now uuid q st indexed fresh =
    settled_or_new-Recorded c now uuid _ _ q st _ indexed fresh refl refl
