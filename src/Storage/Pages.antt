-- ===== src/Storage/Pages.antt =====
-- src/storage/memory_storage.ts: the records that `list` finds, and its pages.
use blockrun_multiversx_plat.Base.{
  ℕ, zero, suc, ◌+◌, ◌≤◌, String, ◌≡◌, refl, sym, ap, ◌∙◌, subst, ◌↔◌, inl, inr, true, Option, none,
  some, List, [], ◌∷◌, ◌++◌, arith, ℕ_key, text_key, leb→le, Bool-cases,
}
use blockrun_multiversx_plat.Base.Dict.{values}
use blockrun_multiversx_plat.Base.Lists.{length, take, drop, length-drop, length-take-le, Member}
use blockrun_multiversx_plat.Base.Text.{truthy, units_key}
use blockrun_multiversx_plat.Storage.Defs.{
  SettlementStatus, pending, completed, failed, SettlementRecord, Storage, same_status,
  SettlementFilter, wants, wants_status, at_least, at_most, matching, list,
}
use blockrun_multiversx_plat.Storage.Defs.{pending, completed, failed}
use blockrun_multiversx_plat.Base.Lists.{Member-filter}

-- What a filter asks of a record: its payer, receiver and asset where the filter names one that is not
-- empty, its status where the filter has one, and a time of creation within the dates, both included.
pub record Meets (f : SettlementFilter) (r : SettlementRecord) : Type 0 where
  pub from_payer : (s : String) → f.payer ≡ some s → truthy s ≡ true → r.payer ≡ s
  pub to_receiver : (s : String) → f.receiver ≡ some s → truthy s ≡ true → r.receiver ≡ s
  pub in_asset : (s : String) → f.asset ≡ some s → truthy s ≡ true → r.asset ≡ s
  pub in_status : (s : SettlementStatus) → f.status ≡ some s → r.status ≡ s
  pub since : (n : ℕ) → f.from_date ≡ some n → n ≤ r.created_at
  pub until : (n : ℕ) → f.to_date ≡ some n → r.created_at ≤ n

some_inj : {A : Type 0} (a b : A) → some a ≡ some b → a ≡ b
some_inj a b e = cc

wants_iff :
    (o : Option String) (t : String)
    → (wants o t ≡ true) ↔ ((s : String) → o ≡ some s → truthy s ≡ true → t ≡ s)
wants_iff none t = (λ h s e. absurd cc, λ h. refl)
wants_iff (some s) t = elim (Bool-cases (truthy s)) [
  | inl full ↦ (
    λ h x e u. (text_key.same_iff t s).0 (ground (arith, h, full)) ∙ some_inj s x e,
    λ h. let same = (text_key.same_iff t s).1 (h s refl full) in ground (arith, same),
  )
  | inr empty ↦
      (λ h x e u. absurd (let w = ap truthy (some_inj s x e) ∙ u in cc), λ h. ground (arith, empty))
]

same_status_iff : (a b : SettlementStatus) → (same_status a b ≡ true) ↔ (a ≡ b)
same_status_iff pending pending = (λ h. refl, λ h. refl)
same_status_iff pending completed = (λ h. absurd cc, λ h. absurd cc)
same_status_iff pending failed = (λ h. absurd cc, λ h. absurd cc)
same_status_iff completed pending = (λ h. absurd cc, λ h. absurd cc)
same_status_iff completed completed = (λ h. refl, λ h. refl)
same_status_iff completed failed = (λ h. absurd cc, λ h. absurd cc)
same_status_iff failed pending = (λ h. absurd cc, λ h. absurd cc)
same_status_iff failed completed = (λ h. absurd cc, λ h. absurd cc)
same_status_iff failed failed = (λ h. refl, λ h. refl)

wants_status_iff :
    (o : Option SettlementStatus) (t : SettlementStatus)
    → (wants_status o t ≡ true) ↔ ((s : SettlementStatus) → o ≡ some s → t ≡ s)
wants_status_iff none t = (λ h s e. absurd cc, λ h. refl)
wants_status_iff (some s) t =
    (λ h x e. (same_status_iff t s).0 h ∙ some_inj s x e, λ h. (same_status_iff t s).1 (h s refl))

at_least_iff : (o : Option ℕ) (t : ℕ) → (at_least o t ≡ true) ↔ ((n : ℕ) → o ≡ some n → n ≤ t)
at_least_iff none t = (λ h n e. absurd cc, λ h. refl)
at_least_iff (some m) t = (
  λ h n e. subst (λ x. x ≤ t) (some_inj m n e) (leb→le m t h),
  λ h. let w = h m refl in ground (arith, w),
)

at_most_iff : (o : Option ℕ) (t : ℕ) → (at_most o t ≡ true) ↔ ((n : ℕ) → o ≡ some n → t ≤ n)
at_most_iff none t = (λ h n e. absurd cc, λ h. refl)
at_most_iff (some m) t = (
  λ h n e. subst (λ x. t ≤ x) (some_inj m n e) (leb→le t m h),
  λ h. let w = h m refl in ground (arith, w),
)

-- The records that pass the criteria one after the other.
matching-Meets :
    (f : SettlementFilter) (rs : List SettlementRecord) (r : SettlementRecord)
    → Member r (matching f rs) ↔ (Member r rs × Meets f r)
unfolding matching
matching-Meets f rs r = (
  λ h.
      let (g, h1) = (Member-filter _ _ r).0 h in
      let (e, h2) = (Member-filter _ _ r).0 h1 in
      let (d, h3) = (Member-filter _ _ r).0 h2 in
      let (c, h4) = (Member-filter _ _ r).0 h3 in
      let (b, h5) = (Member-filter _ _ r).0 h4 in
      let (a, h6) = (Member-filter _ _ r).0 h5 in
      (
        h6,
        record {
          from_payer = (wants_iff f.payer r.payer).0 a;
          to_receiver = (wants_iff f.receiver r.receiver).0 b;
          in_asset = (wants_iff f.asset r.asset).0 d;
          in_status = (wants_status_iff f.status r.status).0 c;
          since = (at_least_iff f.from_date r.created_at).0 e;
          until = (at_most_iff f.to_date r.created_at).0 g;
        },
      ),
  λ h.
      let m = h.1 in
      (Member-filter _ _ r).1 (
        (at_most_iff f.to_date r.created_at).1 m.until,
        (Member-filter _ _ r).1 (
          (at_least_iff f.from_date r.created_at).1 m.since,
          (Member-filter _ _ r).1 (
            (wants_iff f.asset r.asset).1 m.in_asset,
            (Member-filter _ _ r).1 (
              (wants_status_iff f.status r.status).1 m.in_status,
              (Member-filter _ _ r).1 (
                (wants_iff f.receiver r.receiver).1 m.to_receiver,
                (Member-filter _ _ r).1 ((wants_iff f.payer r.payer).1 m.from_payer, h.0),
              ),
            ),
          ),
        ),
      ),
)

take-all {ℓ} : {A : Type ℓ} (n : ℕ) (xs : List A) → length xs ≤ n → take n xs ≡ xs
take-all zero [] h = refl
take-all zero (x ∷ xs) h = absurd (omega (arith, h))
take-all (suc n) [] h = refl
take-all (suc n) (x ∷ xs) h = ap (λ l. x ∷ l) (take-all n xs (omega (arith, h)))

take-drop {ℓ} : {A : Type ℓ} (k : ℕ) (xs : List A) → take k xs ++ drop k xs ≡ xs
take-drop zero xs = refl
take-drop (suc k) [] = refl
take-drop (suc k) (x ∷ xs) = ap (λ l. x ∷ l) (take-drop k xs)

drop-nil {ℓ} : {A : Type ℓ} (n : ℕ) → drop {A = A} n [] ≡ []
drop-nil zero = refl
drop-nil (suc n) = refl

drop-drop {ℓ} : {A : Type ℓ} (k o : ℕ) (xs : List A) → drop (o + k) xs ≡ drop k (drop o xs)
drop-drop k zero xs = ap (λ n. drop n xs) (let w : 0 + k ≡ k = omega arith in w)
drop-drop k (suc o) [] = drop-nil (suc o + k) ∙ sym (drop-nil k)
drop-drop k (suc o) (x ∷ xs) =
    ap (λ n. drop n (x ∷ xs)) (let w : suc o + k ≡ suc (o + k) = omega arith in w)
    ∙ drop-drop k o xs

list-unlimited :
    (f : SettlementFilter) (o : ℕ) (s : Storage)
    → list f (some o) none s ≡ drop o (matching f (values s.records))
unfolding list
list-unlimited f o s =
    let all_of = matching f (values s.records) in
    take-all (length all_of) (drop o all_of) (omega (arith, length-drop o all_of))

-- Without an offset and a limit `list` finds exactly the stored records that meet the filter. A page
-- holds at most as many records as its limit; and a page, followed by what `list` finds from its end
-- on, is what `list` finds from its start on, so that pages that follow each other neither repeat nor
-- leave out a record.
pub list-Meets :
    (f : SettlementFilter) (offset limit : ℕ) (s : Storage)
    → ((r : SettlementRecord)
        → Member r (list f none none s) ↔ (Member r (values s.records) × Meets f r))
      × (list f (some 0) none s ≡ list f none none s)
      × (length (list f (some offset) (some limit) s) ≤ limit)
      × (list f (some offset) (some limit) s ++ list f (some (offset + limit)) none s
          ≡ list f (some offset) none s)
unfolding list
list-Meets f offset limit s =
    let all_of = matching f (values s.records) in
    let whole : list f none none s ≡ all_of = take-all (length all_of) all_of (omega arith) in
    (
      (λ r.
          subst (λ l. Member r l ↔ (Member r (values s.records) × Meets f r)) (sym whole)
            (matching-Meets f (values s.records) r)),
      refl,
      length-take-le limit _,
      ap (λ l. take limit (drop offset all_of) ++ l) (list-unlimited f (offset + limit) s)
          ∙ ap (λ l. take limit (drop offset all_of) ++ l) (drop-drop limit offset all_of)
          ∙ take-drop limit (drop offset all_of)
          ∙ sym (list-unlimited f offset s),
    )
