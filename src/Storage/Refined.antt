-- ===== src/Storage/Refined.antt =====
-- What src/storage/memory_storage.ts promises to the services that find settlements by signature hash: an
-- abstract storage, which is a record or nothing for each hash, and the storage with its index as an
-- implementation of it.
use blockrun_multiversx_plat.Base.{
  ℕ, String, ◌≡◌, refl, sym, ap, ◌∙◌, subst, ◌⊎◌, inl, inr, Bool, true, false, Option, none, some,
  List, [], ◌∷◌, arith, if◌then◌else◌, ◌===◌, ℕ_key, text_key, Bool-cases, Option-cases,
}
use blockrun_multiversx_plat.Base.Dict.{get, set, get-set_self, get-set_other}
use blockrun_multiversx_plat.Base.Text.{truthy, units_key}
use blockrun_multiversx_plat.Storage.Defs.{
  SettlementStatus, SettlementRecord, StatusUpdateDetails, Storage, save, get_by_signature_hash,
  updated, update_status,
}
use blockrun_multiversx_plat.Storage.Index.{
  IsIndexed, Replaces, save-IsIndexed, update_status-IsIndexed,
}

pub data StorageCall : Type 0 where
  saves : SettlementRecord → StorageCall
  updates : ℕ → String → SettlementStatus → StatusUpdateDetails → StorageCall

abbrev pub perform : StorageCall → Storage → Storage
perform (saves r) s = save r s
perform (updates now i status details) s = update_status now i status details s

abbrev pub perform_all : List StorageCall → Storage → Storage
perform_all [] s = s
perform_all (c ∷ cs) s = perform_all cs (perform c s)

-- The abstract storage at one hash: a save under the hash replaces what is there, and an update changes
-- what is there if it has the id.
abbrev pub update_if :
    ℕ → String → SettlementStatus → StatusUpdateDetails → SettlementRecord → SettlementRecord
update_if now i status details r = if r.id === i then updated now status details r else r

abbrev pub specified : String → StorageCall → Option SettlementRecord → Option SettlementRecord
specified hash (saves r) o = if r.signature_hash === hash then some r else o
specified hash (updates now i status details) none = none
specified hash (updates now i status details) (some r) = some (update_if now i status details r)

abbrev pub specified_all :
    String → List StorageCall → Option SettlementRecord → Option SettlementRecord
specified_all hash [] o = o
specified_all hash (c ∷ cs) o = specified_all hash cs (specified hash c o)

-- A record that is saved has an id, and takes no other payment's place.
abbrev pub Permitted : StorageCall → Storage → Type 0
Permitted (saves r) s = (truthy r.id ≡ true) × Replaces r s
Permitted (updates now i status details) s = Unit

abbrev pub AllPermitted : List StorageCall → Storage → Type 0
AllPermitted [] s = Unit
AllPermitted (c ∷ cs) s = Permitted c s × AllPermitted cs (perform c s)

-- What a hash leads to: nothing, or a record that has the hash, under its id.
found-cases :
    (hash : String) (s : Storage)
    → IsIndexed s
    → ((get hash s.sig_hash_index ≡ none) × (get_by_signature_hash hash s ≡ none))
      ⊎ ((i : String) × (x : SettlementRecord) × (get hash s.sig_hash_index ≡ some i)
          × (get i s.records ≡ some x)
          × (x.signature_hash ≡ hash)
          × (x.id ≡ i)
          × (get_by_signature_hash hash s ≡ (if truthy i then some x else none)))
unfolding get_by_signature_hash
found-cases hash s h = elim (Option-cases (get hash s.sig_hash_index)) [
  | inl e ↦ inl (e, ground (arith, e))
  | inr (i, e) ↦
      let (x, there, same) = h.hash_of hash i e in
      inr (i, x, e, there, same, h.id_of i x there, ground (arith, e, there))
]

view-none :
    (hash : String) (s : Storage)
    → get hash s.sig_hash_index ≡ none
    → get_by_signature_hash hash s ≡ none
unfolding get_by_signature_hash
view-none hash s e = ground (arith, e)

view-of :
    (hash i : String) (x : SettlementRecord) (s : Storage)
    → get hash s.sig_hash_index ≡ some i
    → get i s.records ≡ some x
    → get_by_signature_hash hash s ≡ (if truthy i then some x else none)
unfolding get_by_signature_hash
view-of hash i x s e there = ground (arith, e, there)

pub save-specified :
    (hash : String) (r : SettlementRecord) (s : Storage)
    → IsIndexed s
    → truthy r.id ≡ true
    → Replaces r s
    → get_by_signature_hash hash (save r s)
      ≡ specified hash (saves r) (get_by_signature_hash hash s)
unfolding save
save-specified hash r s h named new = elim (Bool-cases (r.signature_hash === hash)) [
  | inl here ↦
      let at = (text_key.same_iff r.signature_hash hash).0 here in
      let found =
        view-of hash r.id r (save r s)
          (subst (λ k. get k (set r.signature_hash r.id s.sig_hash_index) ≡ some r.id) at
            (get-set_self r.signature_hash r.id s.sig_hash_index))
          (get-set_self r.id r s.records) in
      found ∙ ground (arith, named, here)
  | inr other ↦
      let index = get-set_other r.signature_hash hash r.id s.sig_hash_index other in
      elim (found-cases hash s h) [
        | inl (e, gone) ↦ view-none hash (save r s) (index ∙ e) ∙ ground (arith, other, gone)
        | inr (i, x, e, there, same, at, view) ↦ elim (Bool-cases (r.id === i)) [
          | inl taken ↦
              let id : r.id ≡ i = (text_key.same_iff r.id i).0 taken in
              let hashes = new x (subst (λ j. get j s.records ≡ some x) (sym id) there) in
              let clash : (r.signature_hash === hash) ≡ true =
                (text_key.same_iff r.signature_hash hash).1 (sym hashes ∙ same) in
              absurd (ground (arith, clash, other))
          | inr apart ↦
              view-of hash i x (save r s) (index ∙ e)
                (get-set_other r.id i r s.records apart ∙ there)
              ∙ ground (arith, other, view)
        ]
      ]
]

specified-if :
    (hash i : String) (now : ℕ) (status : SettlementStatus) (details : StatusUpdateDetails)
    (b : Bool) (x : SettlementRecord)
    → specified hash (updates now i status details) (if b then some x else none)
      ≡ (if b then some (update_if now i status details x) else none)
specified-if hash i now status details true x = refl
specified-if hash i now status details false x = refl

-- An update that finds the record, and one that does not.
update_found :
    (now : ℕ) (i : String) (status : SettlementStatus) (details : StatusUpdateDetails)
    (r : SettlementRecord) (s : Storage)
    → get i s.records ≡ some r
    → update_status now i status details s
      ≡ record s { records = set i (updated now status details r) s.records }
unfolding update_status
update_found now i status details r s h = ground (arith, h)

update_missing :
    (now : ℕ) (i : String) (status : SettlementStatus) (details : StatusUpdateDetails) (s : Storage)
    → get i s.records ≡ none
    → update_status now i status details s ≡ s
unfolding update_status
update_missing now i status details s h = ground (arith, h)

-- The view of a hash that leads to a record, after an update of some id.
record_after :
    (now : ℕ) (i j : String) (status : SettlementStatus) (details : StatusUpdateDetails)
    (x : SettlementRecord) (s : Storage)
    → x.id ≡ j
    → get j s.records ≡ some x
    → get j (update_status now i status details s).records ≡ some (update_if now i status details x)
record_after now i j status details x s at there = elim (Bool-cases (x.id === i)) [
  | inl this ↦
      let id : j ≡ i = sym at ∙ (text_key.same_iff x.id i).0 this in
      let here = subst (λ k. get k s.records ≡ some x) id there in
      let after = update_found now i status details x s here in
      let kept = get-set_self i (updated now status details x) s.records in
      ap (λ t. get j t.records) after
      ∙ subst
          (λ k.
            get k (set i (updated now status details x) s.records)
            ≡ some (updated now status details x))
          (sym id) kept
      ∙ ground (arith, this)
  | inr other ↦
      let apart : (i === j) ≡ false =
        ground (arith, other, at, text_key.same_iff i j, text_key.same_iff x.id i) in
      let same : some x ≡ some (update_if now i status details x) = ground (arith, other) in
      elim (Option-cases (get i s.records)) [
        | inl missing ↦
            ap (λ t. get j t.records) (update_missing now i status details s missing) ∙ there ∙ same
        | inr (r, found) ↦
            ap (λ t. get j t.records) (update_found now i status details r s found)
            ∙ get-set_other i j (updated now status details r) s.records apart
            ∙ there
            ∙ same
      ]
]

index_after :
    (now : ℕ) (i : String) (status : SettlementStatus) (details : StatusUpdateDetails) (s : Storage)
    → (update_status now i status details s).sig_hash_index ≡ s.sig_hash_index
unfolding update_status
index_after now i status details s = elim (Option-cases (get i s.records)) [
  | inl missing ↦ ground (arith, missing)
  | inr (r, found) ↦ ground (arith, found)
]

pub update_status-specified :
    (hash i : String) (now : ℕ) (status : SettlementStatus) (details : StatusUpdateDetails)
    (s : Storage)
    → IsIndexed s
    → get_by_signature_hash hash (update_status now i status details s)
      ≡ specified hash (updates now i status details) (get_by_signature_hash hash s)
update_status-specified hash i now status details s h =
    let index = ap (get hash) (index_after now i status details s) in
    elim (found-cases hash s h) [
      | inl (e, gone) ↦
          view-none hash (update_status now i status details s) (index ∙ e)
          ∙ sym (ap (specified hash (updates now i status details)) gone)
      | inr (j, x, e, there, same, at, view) ↦
          view-of hash j (update_if now i status details x) (update_status now i status details s)
            (index ∙ e) (record_after now i j status details x s at there)
          ∙ sym (specified-if hash i now status details (truthy j) x)
          ∙ sym (ap (specified hash (updates now i status details)) view)
    ]

perform-IsIndexed :
    (c : StorageCall) (s : Storage) → IsIndexed s → Permitted c s → IsIndexed (perform c s)
perform-IsIndexed (saves r) s h p = save-IsIndexed r s h p.1
perform-IsIndexed (updates now i status details) s h p =
    update_status-IsIndexed now i status details s h

perform-specified :
    (hash : String) (c : StorageCall) (s : Storage)
    → IsIndexed s
    → Permitted c s
    → get_by_signature_hash hash (perform c s) ≡ specified hash c (get_by_signature_hash hash s)
perform-specified hash (saves r) s h p = save-specified hash r s h p.0 p.1
perform-specified hash (updates now i status details) s h p =
    update_status-specified hash i now status details s h

-- Over any sequence of saves and status updates, from a storage whose index and records agree, the
-- lookup by a hash gives what the abstract storage gives, if each record that is saved has an id and
-- takes no place but that of a record with its own hash.
pub perform_all-specified :
    (hash : String) (cs : List StorageCall) (s : Storage)
    → IsIndexed s
    → AllPermitted cs s
    → get_by_signature_hash hash (perform_all cs s)
      ≡ specified_all hash cs (get_by_signature_hash hash s)
perform_all-specified hash [] s h p = refl
perform_all-specified hash (c ∷ cs) s h p =
    perform_all-specified hash cs (perform c s) (perform-IsIndexed c s h p.0) p.1
    ∙ ap (specified_all hash cs) (perform-specified hash c s h p.0)
