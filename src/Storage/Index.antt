-- ===== src/Storage/Index.antt =====
-- src/storage/memory_storage.ts: the index by signature hash and the records agree.
use blockrun_multiversx_plat.Base.{
  ℕ, String, ◌≡◌, sym, ap, ◌∙◌, subst, inl, inr, true, some, arith, ◌===◌, ℕ_key, text_key,
  Bool-cases, Option-cases,
}
use blockrun_multiversx_plat.Base.Dict.{get, set, get-set_self, set-cases, get-set_other}
use blockrun_multiversx_plat.Base.Text.{truthy, units_key}
use blockrun_multiversx_plat.Storage.Defs.{
  SettlementStatus, SettlementRecord, StatusUpdateDetails, Storage, save, get_by_id,
  get_by_signature_hash, updated, update_status,
}

-- Each record stands under its id, and an indexed hash leads to a record that has it.
pub record IsIndexed (s : Storage) : Type 0 where
  pub id_of : (i : String) (r : SettlementRecord) → get i s.records ≡ some r → r.id ≡ i
  pub hash_of :
      (h i : String)
      → get h s.sig_hash_index ≡ some i
      → (r : SettlementRecord) × (get i s.records ≡ some r) × (r.signature_hash ≡ h)

-- A record may take the place of one with the same hash only.
abbrev pub Replaces : SettlementRecord → Storage → Type 0
Replaces r s =
    (old : SettlementRecord) → get r.id s.records ≡ some old → old.signature_hash ≡ r.signature_hash

kept_under :
    (r : SettlementRecord) (s : Storage)
    → IsIndexed s
    → Replaces r s
    → (k i : String) → get k s.sig_hash_index ≡ some i
    → (x : SettlementRecord) × (get i (set r.id r s.records) ≡ some x) × (x.signature_hash ≡ k)
kept_under r s h new k i e =
    let (x, there, same) = h.hash_of k i e in
    elim (Bool-cases (r.id === i)) [
      | inl here ↦
          let at : r.id ≡ i = (text_key.same_iff r.id i).0 here in
          (
            r,
            subst (λ j. get j (set r.id r s.records) ≡ some r) at (get-set_self r.id r s.records),
            sym (new x (subst (λ j. get j s.records ≡ some x) (sym at) there)) ∙ same,
          )
      | inr other ↦ (x, get-set_other r.id i r s.records other ∙ there, same)
    ]

-- Saving a record that takes no other payment's place keeps ids and hashes in agreement.
pub save-IsIndexed :
    (r : SettlementRecord) (s : Storage) → IsIndexed s → Replaces r s → IsIndexed (save r s)
unfolding save
save-IsIndexed r s h new = record {
  id_of = λ i x e. elim (set-cases r.id i r x s.records e) [
    | inl (here, same) ↦ ap (λ y. y.id) (sym same) ∙ here
    | inr (other, there) ↦ h.id_of i x there
  ];
  hash_of = λ k i e. elim (set-cases r.signature_hash k r.id i s.sig_hash_index e) [
    | inl (here, same) ↦ (
      r,
      subst (λ j. get j (set r.id r s.records) ≡ some r) same (get-set_self r.id r s.records),
      here,
    )
    | inr (other, there) ↦ kept_under r s h new k i there
  ];
}

updated_under :
    (now : ℕ) (status : SettlementStatus) (details : StatusUpdateDetails) (s : Storage)
    → IsIndexed s
    → (i : String) (r : SettlementRecord) → get i s.records ≡ some r
    → (k j : String) → get k s.sig_hash_index ≡ some j
    → (x : SettlementRecord) × (get j (set i (updated now status details r) s.records) ≡ some x)
      × (x.signature_hash ≡ k)
updated_under now status details s h i r there k j e =
    let (x, old, same) = h.hash_of k j e in
    let new = updated now status details r in
    elim (Bool-cases (i === j)) [
      | inl here ↦
          let at : i ≡ j = (text_key.same_iff i j).0 here in
          let one : r ≡ x = cc (there, old, at) in
          (
            new,
            subst (λ m. get m (set i new s.records) ≡ some new) at (get-set_self i new s.records),
            ap (λ y. y.signature_hash) one ∙ same,
          )
      | inr other ↦ (x, get-set_other i j new s.records other ∙ old, same)
    ]

-- Updating a status keeps them in agreement.
pub update_status-IsIndexed :
    (now : ℕ) (i : String) (status : SettlementStatus) (details : StatusUpdateDetails) (s : Storage)
    → IsIndexed s
    → IsIndexed (update_status now i status details s)
unfolding update_status
update_status-IsIndexed now i status details s h = elim (Option-cases (get i s.records)) [
  | inl missing ↦ rw (missing, update_status) h
  | inr (r, there) ↦
      rw (there, update_status)
        (record {
          id_of = λ j x e. elim (set-cases i j (updated now status details r) x s.records e) [
            | inl (here, same) ↦ ap (λ y. y.id) (sym same) ∙ h.id_of i r there ∙ here
            | inr (other, old) ↦ h.id_of j x old
          ];
          hash_of = λ k j e. updated_under now status details s h i r there k j e;
        })
]

-- What is found by a hash has that hash.
pub get_by_signature_hash_sound :
    (h : String) (s : Storage) (r : SettlementRecord)
    → IsIndexed s
    → get_by_signature_hash h s ≡ some r
    → (r.signature_hash ≡ h) × (truthy r.id ≡ true) × (get_by_id r.id s ≡ some r)
unfolding get_by_signature_hash get_by_id
get_by_signature_hash_sound h s r indexed e = elim (Option-cases (get h s.sig_hash_index)) [
  | inl missing ↦ absurd (ground (arith, e, missing))
  | inr (i, there) ↦
      let (x, old, same) = indexed.hash_of h i there in
      let full : truthy i ≡ true = ground (arith, e, there) in
      let one : x ≡ r = ground (arith, e, there, old, full) in
      let at : r.id ≡ i = indexed.id_of i r (old ∙ ap some one) in
      (
        ap (λ y. y.signature_hash) (sym one) ∙ same,
        ap truthy at ∙ full,
        subst (λ j. get j s.records ≡ some r) (sym at) (old ∙ ap some one),
      )
]
