-- ===== src/Services/Sentinel/Refills.antt =====
-- Which relayers src/services/relayer_gas_sentinel.ts tops up, and with which transfers.
use blockrun_multiversx_plat.Base.{
  ℕ, ◌+◌, ◌<◌, String, ◌≡◌, refl, sym, ap, ◌∙◌, subst, inl, inr, true, false, none, some, List, [],
  ◌∷◌, ◌++◌, map, append_assoc, append-nil, arith, ltb, ℕ_key, text_key, ltb→lt, Bool-cases,
}
use blockrun_multiversx_plat.Base.Dict.{Dict}
use blockrun_multiversx_plat.Base.Thrown.{ok, Thrown-cases}
use blockrun_multiversx_plat.Base.Lists.{length, All}
use blockrun_multiversx_plat.Base.Text.{units_key}
use blockrun_multiversx_plat.Services.Sentinel.Defs.{
  Relayer, RelayerBalanceStatus, CheckedRelayer, TopUp, Sentinel, Ports, top_up_to, report,
  with_status, execute_top_up, after_top_up, refill_relayer, check_relayer, check_relayers,
}

module _ (ports : Ports) (threshold amount : ℕ) (chain_id : String) where
  -- The transfers of a check that starts from a nonce: one for some of the relayers that are below the
  -- threshold, in their order, with the amount and the next nonce.
  pub data Refills : ℕ → List Relayer → List TopUp → Type 0 where
    all_checked : (n : ℕ) → Refills n [] []
    passes :
        {n : ℕ} {rs : List Relayer} {txs : List TopUp} (r : Relayer)
        → Refills n rs txs
        → Refills n (r ∷ rs) txs
    refills :
        {n : ℕ} {rs : List Relayer} {txs : List TopUp} (r : Relayer) (balance : ℕ)
        → ports.balance_of r.address ≡ ok balance
        → balance < threshold
        → Refills (n + 1) rs txs
        → Refills n
            (r ∷ rs)
            (record { nonce = n; value = amount; receiver = r.address; chain_id = chain_id } ∷ txs)

module _ (ports : Ports) where
  -- An entry without an error says the balance, and that the relayer was topped up if and only if the
  -- balance was below the threshold.
  abbrev pub Reports : ℕ → CheckedRelayer → Type 0
  Reports threshold e =
      e.error ≡ none
      → (ports.balance_of e.relayer.address ≡ ok e.balance)
        × (e.topped_up ≡ ltb e.balance threshold)

  abbrev after_sending : String → Sentinel → Sentinel
  after_sending address s = record s {
    local_nonce = s.local_nonce + 1;
    sent = s.sent ++ top_up_to s s.local_nonce address ∷ [];
  }

  -- What a check of one relayer comes to: an error before the balance is known, no transfer, or a
  -- transfer, with or without an error of the callback that follows.
  check_relayer-cases :
      (now : ℕ) (r : Relayer) (s : Sentinel) (P : CheckedRelayer × ℕ × Sentinel → Type 0)
      → ((m : String) → P (report r 0 none (some m), 0, s))
      → ((b : ℕ) (m : String) → P (report r b none (some m), 0, with_status now r b s))
      → ((b : ℕ)
          → ports.balance_of r.address ≡ ok b
          → ltb b s.threshold ≡ false
          → P (report r b none none, 0, with_status now r b s))
      → ((b : ℕ) (m : String)
          → ports.balance_of r.address ≡ ok b
          → ltb b s.threshold ≡ true
          → P (report r b none (some m), 1, after_sending r.address (with_status now r b s)))
      → ((b : ℕ) (hash : String)
          → ports.balance_of r.address ≡ ok b
          → ltb b s.threshold ≡ true
          → P (report r b (some hash) none, 1, after_sending r.address (with_status now r b s)))
      → P (check_relayer ports now r s)
  unfolding check_relayer refill_relayer execute_top_up after_top_up
  check_relayer-cases now r s P unread unsent quiet unheard paid =
      elim (Thrown-cases (ports.balance_of r.address)) [
        | inr (m, e) ↦
            subst P
              (let w : (report r 0 none (some m), 0, s) ≡ check_relayer ports now r s =
                  ground (arith, e) in
                w)
              (unread m)
        | inl (b, e) ↦ elim (Bool-cases (ltb b s.threshold)) [
          | inr above ↦
              subst P
                (let w : (report r b none none, 0, with_status now r b s)
                      ≡ check_relayer ports now r s =
                    ground (arith, e, above) in
                  w)
                (quiet b e above)
          | inl below ↦
              let here : refill_relayer ports r b (with_status now r b s)
                  ≡ check_relayer ports now r s =
                ground (arith, e, below) in
              subst P here (elim (Thrown-cases (ports.on_alert r.address b s.threshold)) [
                | inr (m, alert) ↦
                    subst P
                      (let w : (report r b none (some m), 0, with_status now r b s)
                            ≡ refill_relayer ports r b (with_status now r b s) =
                          ground (arith, alert) in
                        w)
                      (unsent b m)
                | inl (u, alert) ↦
                    elim (Thrown-cases
                      (ports.sign_and_send (top_up_to s s.local_nonce r.address))) [
                        | inr (m, send) ↦
                            subst P
                              (let w : (report r b none (some m), 0, with_status now r b s)
                                    ≡ refill_relayer ports r b (with_status now r b s) =
                                  ground (arith, alert, send) in
                                w)
                              (unsent b m)
                        | inl (hash, send) ↦
                            elim (Thrown-cases (ports.on_top_up r.address s.top_up_amount hash)) [
                              | inr (m, call) ↦
                                  subst P
                                    (let w : (
                                      report r b none (some m),
                                      1,
                                      after_sending r.address (with_status now r b s),
                                    )
                                          ≡ refill_relayer ports r b (with_status now r b s) =
                                        ground (arith, alert, send, call) in
                                      w)
                                    (unheard b m e below)
                              | inl (v, call) ↦
                                  subst P
                                    (let w : (
                                      report r b (some hash) none,
                                      1,
                                      after_sending r.address (with_status now r b s),
                                    )
                                          ≡ refill_relayer ports r b (with_status now r b s) =
                                        ground (arith, alert, send, call) in
                                      w)
                                    (paid b hash e below)
                            ]
                      ]
              ])
        ]
      ]

  -- What a check of some relayers has done, from a sentinel on.
  abbrev pub Served : List Relayer → Sentinel → List CheckedRelayer × ℕ × Sentinel → Type 0
  Served rs s (results, n, s') =
      (txs : List TopUp) × Refills ports s.threshold s.top_up_amount s.chain_id s.local_nonce rs txs
      × (s'.sent ≡ s.sent ++ txs)
      × (s'.local_nonce ≡ s.local_nonce + length txs)
      × (n ≡ length txs)
      × (map (λ (e : CheckedRelayer). e.relayer) results ≡ rs)
      × All (Reports s.threshold) results

  abbrev onto :
      ℕ → List Relayer → CheckedRelayer × ℕ × Sentinel → List CheckedRelayer × ℕ × Sentinel
  onto now rs (entry, n, s) =
      let (others, m, s') = check_relayers ports now rs s in (entry ∷ others, n + m, s')

  -- One relayer more, without a transfer.
  passes-Served :
      (now : ℕ) (r : Relayer) (rs : List Relayer) (s : Sentinel)
      (statuses : Dict String RelayerBalanceStatus) (entry : CheckedRelayer)
      → entry.relayer ≡ r
      → Reports s.threshold entry
      → ((s : Sentinel) → Served rs s (check_relayers ports now rs s))
      → Served (r ∷ rs) s (onto now rs (entry, 0, record s { latest_statuses = statuses }))
  passes-Served now r rs s statuses entry e h onward =
      let (txs, refilled, sent, nonce, n, same, all_report) =
        onward (record s { latest_statuses = statuses }) in
      (
        txs,
        passes r refilled,
        sent,
        nonce,
        omega (arith, n),
        ap (λ xs. entry.relayer ∷ xs) same ∙ ap (λ x. x ∷ rs) e,
        (h, all_report),
      )

  -- One relayer more, with a transfer.
  refills-Served :
      (now : ℕ) (r : Relayer) (rs : List Relayer) (s : Sentinel)
      (statuses : Dict String RelayerBalanceStatus) (entry : CheckedRelayer) (balance : ℕ)
      → entry.relayer ≡ r
      → Reports s.threshold entry
      → ports.balance_of r.address ≡ ok balance
      → ltb balance s.threshold ≡ true
      → ((s : Sentinel) → Served rs s (check_relayers ports now rs s))
      → Served (r ∷ rs) s (
          onto now rs (entry, 1, after_sending r.address (record s { latest_statuses = statuses })))
  refills-Served now r rs s statuses entry balance e h known below onward =
      let tx = top_up_to s s.local_nonce r.address in
      let (txs, refilled, sent, nonce, n, same, all_report) =
        onward (after_sending r.address (record s { latest_statuses = statuses })) in
      (
        tx ∷ txs,
        refills r balance known (ltb→lt balance s.threshold below) refilled,
        sent ∙ append_assoc s.sent (tx ∷ []) txs,
        omega (arith, nonce),
        omega (arith, n),
        ap (λ xs. entry.relayer ∷ xs) same ∙ ap (λ x. x ∷ rs) e,
        (h, all_report),
      )

  -- Over any relayers, the transfers, the nonce and the count agree, and every relayer has its entry.
  pub check_relayers-Served :
      (now : ℕ) (rs : List Relayer) (s : Sentinel) → Served rs s (check_relayers ports now rs s)
  unfolding check_relayers
  check_relayers-Served now [] s =
      ([], all_checked s.local_nonce, sym (append-nil s.sent), omega arith, refl, refl, tt)
  check_relayers-Served now (r ∷ rs) s =
      let onward : (s : Sentinel) → Served rs s (check_relayers ports now rs s) =
        check_relayers-Served now rs in
      check_relayer-cases now r s (λ y. Served (r ∷ rs) s (onto now rs y))
        (λ m.
          passes-Served now r rs s s.latest_statuses (report r 0 none (some m)) refl
            (λ e. absurd cc) onward)
        (λ b m.
          passes-Served now r rs s (with_status now r b s).latest_statuses
            (report r b none (some m)) refl (λ e. absurd cc) onward)
        (λ b e above.
          passes-Served now r rs s (with_status now r b s).latest_statuses (report r b none none)
            refl (λ w. (e, sym above)) onward)
        (λ b m e below.
          refills-Served now r rs s (with_status now r b s).latest_statuses
            (report r b none (some m)) b refl (λ w. absurd cc) e below onward)
        (λ b hash e below.
          refills-Served now r rs s (with_status now r b s).latest_statuses
            (report r b (some hash) none) b refl (λ w. (e, sym below)) e below onward)
