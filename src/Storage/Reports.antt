-- ===== src/Storage/Reports.antt =====
-- src/storage/memory_storage.ts: counts and summaries against the records.
use blockrun_multiversx_plat.Base.{
  ℕ, suc, ◌+◌, ◌≡◌, refl, ◌∙◌, inl, inr, none, List, [], ◌∷◌, arith, ℕ_key, text_key,
}
use blockrun_multiversx_plat.Base.Thrown.{ok, Thrown-cases, >>=-returned}
use blockrun_multiversx_plat.Base.Lists.{length, Member}
use blockrun_multiversx_plat.Base.Text.{units_key}
use blockrun_multiversx_plat.Base.Int.{ℤ}
use blockrun_multiversx_plat.Storage.Defs.{
  completed, SettlementRecord, Storage, status_cases, SettlementFilter, list, count,
  SettlementSummary, amount_of, add_revenue, tally, tally_all, get_summary,
}

abbrev pub counted : SettlementSummary → ℕ
counted s = s.completed_count + s.failed_count + s.pending_count

tally-counted :
    (s : SettlementSummary) (r : SettlementRecord) (t : SettlementSummary)
    → tally s r ≡ ok t
    → (counted t ≡ suc (counted s)) × (t.total_count ≡ s.total_count)
unfolding tally add_revenue
tally-counted s r t h = elim (status_cases r.status) [
  | inl e ↦ (ground (arith, h, e), ground (arith, h, e))
  | inr (inl e) ↦ elim (Thrown-cases (amount_of r)) [
    | inl (z, paid) ↦ (ground (arith, h, e, paid), ground (arith, h, e, paid))
    | inr (m, thrown) ↦ absurd (ground (arith, h, e, thrown))
  ]
  | inr (inr e) ↦ (ground (arith, h, e), ground (arith, h, e))
]

tally_all-counted :
    (s : SettlementSummary) (rs : List SettlementRecord) (t : SettlementSummary)
    → tally_all s rs ≡ ok t
    → (counted t ≡ counted s + length rs) × (t.total_count ≡ s.total_count)
unfolding tally_all
tally_all-counted s [] t h = (ground arith, ground arith)
tally_all-counted s (r ∷ rs) t h =
    let (m, first, rest) = >>=-returned (tally s r) _ h in
    let (a, b) = tally-counted s r m first in
    let (c, d) = tally_all-counted m rs t rest in (omega (arith, a, c), d ∙ b)

tally-total :
    (s : SettlementSummary) (r : SettlementRecord)
    → (r.status ≡ completed → (z : ℤ) × (amount_of r ≡ ok z))
    → (t : SettlementSummary) × (tally s r ≡ ok t)
unfolding tally
tally-total s r h = elim (status_cases r.status) [
  | inl e ↦ (record s { pending_count = s.pending_count + 1 }, ground (arith, e))
  | inr (inl e) ↦ let (z, paid) = h e in (add_revenue s r z, ground (arith, e, paid))
  | inr (inr e) ↦ (record s { failed_count = s.failed_count + 1 }, ground (arith, e))
]

tally_all-total :
    (s : SettlementSummary) (rs : List SettlementRecord)
    → ((r : SettlementRecord) → Member r rs → r.status ≡ completed → (z : ℤ) × (amount_of r ≡ ok z))
    → (t : SettlementSummary) × (tally_all s rs ≡ ok t)
unfolding tally_all
tally_all-total s [] h = (s, refl)
tally_all-total s (r ∷ rs) h =
    let (m, first) = tally-total s r (h r (inl refl)) in
    let (t, rest) = tally_all-total m rs (λ x there. h x (inr there)) in (t, rw first rest)

-- The three counts of a summary add up to its total, which is what `count` answers for the filter.
pub get_summary-counted :
    (f : SettlementFilter) (s : Storage) (t : SettlementSummary)
    → get_summary f s ≡ ok t
    → (counted t ≡ t.total_count) × (t.total_count ≡ count f s)
unfolding get_summary count
get_summary-counted f s t h =
    let (a, b) = tally_all-counted _ (list f none none s) t h in (omega (arith, a, b), b)

-- A summary fails only on a completed record whose amount is no integer.
pub get_summary-total :
    (f : SettlementFilter) (s : Storage)
    → ((r : SettlementRecord)
        → Member r (list f none none s)
        → r.status ≡ completed
        → (z : ℤ) × (amount_of r ≡ ok z))
    → (t : SettlementSummary) × (get_summary f s ≡ ok t)
unfolding get_summary
get_summary-total f s h = tally_all-total _ (list f none none s) h
