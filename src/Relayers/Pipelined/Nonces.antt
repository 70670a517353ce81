-- ===== src/Relayers/Pipelined/Nonces.antt =====
-- The nonces that src/services/pipelined_relayer_pool.ts hands out, over any sequence of calls.
use blockrun_multiversx_plat.Base.{
  ℕ, ◌+◌, ◌-◌, ◌≤◌, String, ◌≡◌, refl, ◌∙◌, subst, ◌⊎◌, inl, inr, none, some, List, [], ◌∷◌, ◌++◌,
  arith, leb, if◌then◌else◌, ◌===◌, ℕ_key, text_key, Option-cases,
}
use blockrun_multiversx_plat.Base.Dict.{get, get-set}
use blockrun_multiversx_plat.Base.Thrown.{ok, err}
use blockrun_multiversx_plat.Base.Lists.{length}
use blockrun_multiversx_plat.Relayers.Pipelined.Defs.{
  Tracker, Pipeline, resynced, reserve_nonce, confirm_nonce, resync_nonce,
}

pub data Call : Type 0 where
  reserves : String → Call
  confirms resyncs : String → ℕ → Call

-- Each number is at least `low`, and greater than those before it.
abbrev pub IncreasingFrom : ℕ → List ℕ → Type 0
IncreasingFrom low [] = Unit {0}
IncreasingFrom low (n ∷ ns) = (low ≤ n) × IncreasingFrom (n + 1) ns

IncreasingFrom-mono :
    (low high : ℕ) (ns : List ℕ) → low ≤ high → IncreasingFrom high ns → IncreasingFrom low ns
IncreasingFrom-mono low high [] h i = tt
IncreasingFrom-mono low high (n ∷ ns) h i = (omega arith, i.1)

-- Each number is one more than the one before it, from `low` on.
abbrev pub ConsecutiveFrom : ℕ → List ℕ → Type 0
ConsecutiveFrom low [] = Unit {0}
ConsecutiveFrom low (n ∷ ns) = (n ≡ low) × ConsecutiveFrom (low + 1) ns

-- No call of the sequence is a resync.
abbrev pub NoResync : List Call → Type 0
NoResync [] = Unit {0}
NoResync (reserves a ∷ cs) = NoResync cs
NoResync (confirms a n ∷ cs) = NoResync cs
NoResync (resyncs a n ∷ cs) = ⊥

module _ {Signer : Type 0} where
  -- The first nonce that the address has not been given yet.
  abbrev pub next_of : Pipeline Signer → String → ℕ
  next_of p address = elim (get address p.nonce_trackers) [ none ↦ 0 | some t ↦ t.next_nonce ]

  unfoldable pub step : Pipeline Signer → Call → Pipeline Signer
  step p (reserves a) = (reserve_nonce p a).1
  step p (confirms a n) = confirm_nonce p a n
  step p (resyncs a n) = resync_nonce p a n

  -- What one call hands out for an address.
  unfoldable pub given : Pipeline Signer → Call → String → List ℕ
  given p (reserves a) address = elim (reserve_nonce p a).0 [
    | ok n ↦ if a === address then n ∷ [] else []
    | err m ↦ []
  ]
  given p (confirms a n) address = []
  given p (resyncs a n) address = []

  -- The nonces handed out for an address in a sequence of calls, in order.
  unfoldable pub handed : Pipeline Signer → List Call → String → List ℕ
  handed p [] address = []
  handed p (c ∷ cs) address = given p c address ++ handed (step p c) cs address

  -- What a call hands out, and where it leaves the next nonce of an address.
  abbrev Gives : Pipeline Signer → Call → String → Type 0
  Gives p c address =
      ((given p c address ≡ []) × (next_of p address ≤ next_of (step p c) address))
      ⊎ ((given p c address ≡ next_of p address ∷ [])
          × (next_of (step p c) address ≡ next_of p address + 1))

  reserve-Gives : (p : Pipeline Signer) (a address : String) → Gives p (reserves a) address
  unfolding given step reserve_nonce
  reserve-Gives p a address = elim (Option-cases (get a p.nonce_trackers)) [
    | inl e ↦ ground arith
    | inr (t, e) ↦
        let after : Tracker = record t {
          next_nonce = t.next_nonce + 1;
          in_flight_count = t.in_flight_count + 1;
        } in
        ground (arith, get-set a address after p.nonce_trackers, text_key.same_iff a address)
  ]

  confirm-Gives :
      (p : Pipeline Signer) (a address : String) (n : ℕ) → Gives p (confirms a n) address
  unfolding given step confirm_nonce
  confirm-Gives p a address n = elim (Option-cases (get a p.nonce_trackers)) [
    | inl e ↦ ground arith
    | inr (t, e) ↦
        let after : Tracker = record t {
          confirmed_nonce = if leb t.confirmed_nonce n then n + 1 else t.confirmed_nonce;
          in_flight_count = t.in_flight_count - 1;
        } in
        ground (arith, get-set a address after p.nonce_trackers, text_key.same_iff a address)
  ]

  resync-Gives : (p : Pipeline Signer) (a address : String) (n : ℕ) → Gives p (resyncs a n) address
  unfolding given step resync_nonce
  resync-Gives p a address n = elim (Option-cases (get a p.nonce_trackers)) [
    | inl e ↦
        let after : Tracker = record { next_nonce = n; confirmed_nonce = n; in_flight_count = 0 } in
        ground (arith, get-set a address after p.nonce_trackers, text_key.same_iff a address)
    | inr (t, e) ↦
        ground
          (arith, get-set a address (resynced t n) p.nonce_trackers, text_key.same_iff a address)
  ]

  call-Gives : (p : Pipeline Signer) (c : Call) (address : String) → Gives p c address
  call-Gives p (reserves a) address = reserve-Gives p a address
  call-Gives p (confirms a n) address = confirm-Gives p a address n
  call-Gives p (resyncs a n) address = resync-Gives p a address n

  -- Whatever the order of reservations, confirmations and resyncs, on this address and on others, the
  -- nonces that an address is given strictly increase from the next nonce of its tracker, so that no
  -- nonce is given twice.
  pub handed-IncreasingFrom :
      (p : Pipeline Signer) (cs : List Call) (address : String)
      → IncreasingFrom (next_of p address) (handed p cs address)
  unfolding handed
  handed-IncreasingFrom p [] address = tt
  handed-IncreasingFrom p (c ∷ cs) address =
      let rest = handed-IncreasingFrom (step p c) cs address in
      elim (call-Gives p c address) [
        | inl (e, up) ↦ rw e (IncreasingFrom-mono _ _ _ up rest)
        | inr (e, next) ↦
            rw e
              (omega arith, subst (λ n. IncreasingFrom n (handed (step p c) cs address)) next rest)
      ]

  -- A tracked address is given its next nonce by a reservation, and only by that.
  reserve-next :
      (p : Pipeline Signer) (a address : String)
      → (next_of (step p (reserves a)) address
          ≡ next_of p address + length (given p (reserves a) address))
  unfolding given step reserve_nonce
  reserve-next p a address = elim (Option-cases (get a p.nonce_trackers)) [
    | inl e ↦ ground arith
    | inr (t, e) ↦
        let after : Tracker = record t {
          next_nonce = t.next_nonce + 1;
          in_flight_count = t.in_flight_count + 1;
        } in
        ground (arith, get-set a address after p.nonce_trackers, text_key.same_iff a address)
  ]

  confirm-next :
      (p : Pipeline Signer) (a address : String) (n : ℕ)
      → next_of (step p (confirms a n)) address ≡ next_of p address
  unfolding step confirm_nonce
  confirm-next p a address n = elim (Option-cases (get a p.nonce_trackers)) [
    | inl e ↦ ground arith
    | inr (t, e) ↦
        let after : Tracker = record t {
          confirmed_nonce = if leb t.confirmed_nonce n then n + 1 else t.confirmed_nonce;
          in_flight_count = t.in_flight_count - 1;
        } in
        ground (arith, get-set a address after p.nonce_trackers, text_key.same_iff a address)
  ]

  confirm-given :
      (p : Pipeline Signer) (a address : String) (n : ℕ) → given p (confirms a n) address ≡ []
  unfolding given
  confirm-given p a address n = refl

  -- With no resync among the calls, the nonces of an address are consecutive from its tracker's next
  -- nonce: there is no gap.
  pub handed-ConsecutiveFrom :
      (p : Pipeline Signer) (cs : List Call) (address : String)
      → NoResync cs
      → ConsecutiveFrom (next_of p address) (handed p cs address)
  unfolding handed
  handed-ConsecutiveFrom p [] address h = tt
  handed-ConsecutiveFrom p (resyncs a n ∷ cs) address h = absurd h
  handed-ConsecutiveFrom p (confirms a n ∷ cs) address h = rw (confirm-given p a address n) (
      subst (λ k. ConsecutiveFrom k (handed (step p (confirms a n)) cs address))
        (confirm-next p a address n) (handed-ConsecutiveFrom (step p (confirms a n)) cs address h))
  handed-ConsecutiveFrom p (reserves a ∷ cs) address h =
      let rest = handed-ConsecutiveFrom (step p (reserves a)) cs address h in
      elim (reserve-Gives p a address) [
        | inl (e, up) ↦ rw e (
            subst (λ k. ConsecutiveFrom k (handed (step p (reserves a)) cs address))
              (reserve-next p a address ∙ rw e (omega arith)) rest)
        | inr (e, next) ↦ rw e (
          refl,
          subst (λ k. ConsecutiveFrom k (handed (step p (reserves a)) cs address)) next rest,
        )
      ]
