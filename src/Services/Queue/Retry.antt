-- ===== src/Services/Queue/Retry.antt =====
-- src/services/settlement_queue.ts: the retries of one request end, within the configured number.
use blockrun_multiversx_plat.Base.{
  ℕ, zero, suc, ◌+◌, ◌*◌, ◌≤◌, ◌<◌, min, max, ◌≡◌, refl, ◌∙◌, ◌⊎◌, inl, inr, true, false, some,
  List, [], ◌∷◌, ◌++◌, arith, ℕ_key, text_key, Bool-cases,
}
use blockrun_multiversx_plat.Base.Thrown.{Thrown}
use blockrun_multiversx_plat.Base.Lists.{length, All, length-append, All-append}
use blockrun_multiversx_plat.Base.Text.{units_key}
use blockrun_multiversx_plat.Domain.{SettleResponse}
use blockrun_multiversx_plat.Services.Queue.Defs.{
  RetryConfig, successful, Outcome, final, attempts, execute_with_retry,
}

module _ {S : Type 0} (c : RetryConfig) (settle : S → Thrown SettleResponse × S) where
  -- A delay that was slept is the first one, or within the maximum.
  abbrev pub IsDelay : ℕ → Type 0
  IsDelay d = d ≤ max c.base_delay_ms c.max_delay_ms

  -- The result is one to stop at, or every retry was used.
  abbrev pub Ended : Outcome S → Type 0
  Ended o =
      (successful o.result ≡ true)
      ⊎ ((c.is_transient o.result ≡ false) ⊎ (length o.slept ≡ c.max_retries))

  final-Ended :
      (r : Thrown SettleResponse) (attempt : ℕ)
      → final c settle r (attempt + 1) ≡ true
      → attempt ≤ c.max_retries
      → (successful r ≡ true) ⊎ ((c.is_transient r ≡ false) ⊎ (attempt ≡ c.max_retries))
  final-Ended r attempt stop bound = elim (Bool-cases (successful r)) [
    | inl good ↦ inl good
    | inr bad ↦ elim (Bool-cases (c.is_transient r)) [
      | inl again ↦ inr (inr (ground (arith, stop, bad, again)))
      | inr once ↦ inr (inl once)
    ]
  ]

  not_final :
      (r : Thrown SettleResponse) (attempt : ℕ)
      → final c settle r (attempt + 1) ≡ false
      → attempt < c.max_retries
  not_final r attempt again = ground (arith, again)

  attempts-total :
      (fuel attempt delay : ℕ) (slept : List ℕ) (s : S)
      → attempt + fuel ≡ c.max_retries + 1
      → 0 < fuel
      → length slept ≡ attempt
      → IsDelay delay
      → All IsDelay slept
      → (o : Outcome S) × (attempts c settle fuel attempt delay slept s ≡ some o)
        × (length o.slept ≤ c.max_retries)
        × All IsDelay o.slept
        × Ended o
  unfolding attempts
  attempts-total zero attempt delay slept s bound positive count d ds = absurd (omega arith)
  attempts-total (suc fuel) attempt delay slept s bound positive count d ds =
      let r = (settle s).0 in
      elim (Bool-cases (final c settle r (attempt + 1))) [
        | inl stop ↦ (
          record { result = r; settler = (settle s).1; slept = slept },
          ground (arith, stop),
          omega arith,
          ds,
          elim (final-Ended r attempt stop (omega arith)) [
            | inl good ↦ inl good
            | inr (inl once) ↦ inr (inl once)
            | inr (inr used) ↦ inr (inr (count ∙ used))
          ],
        )
        | inr again ↦
            let more : 0 < fuel = omega (arith, not_final r attempt again) in
            let (o, e, n, ok_all, ended) =
              attempts-total fuel (attempt + 1) (min c.max_delay_ms (delay * c.backoff_multiplier))
                (slept ++ delay ∷ []) (settle s).1 (omega arith) more
                (omega (arith, length-append slept (delay ∷ []))) (omega arith)
                (All-append IsDelay slept (delay ∷ []) ds (d, tt)) in
            (o, ground (arith, again, e), n, ok_all, ended)
      ]

-- The settler is asked at most once more than the retries allow, so that the loop ends: with a
-- success, with a result that is not transient, or with every retry used; and each delay slept is
-- within the first and the maximal one.
pub execute_with_retry-total :
    {S : Type 0} (c : RetryConfig) (settle : S → Thrown SettleResponse × S) (s : S)
    → (o : Outcome S) × (execute_with_retry c settle s ≡ some o)
      × (length o.slept ≤ c.max_retries)
      × All (IsDelay c settle) o.slept
      × Ended c settle o
unfolding execute_with_retry
execute_with_retry-total c settle s =
    attempts-total c settle (c.max_retries + 1) 0 c.base_delay_ms [] s (omega arith) (omega arith)
      refl (omega arith) tt
