-- ===== src/Router/Ranking/Slashed.antt =====
-- What a breach of the service level costs a provider: src/router/sla_slasher.ts over the matrix.
use blockrun_multiversx_plat.Base.{
  ℕ, ◌+◌, String, ◌≡◌, refl, sym, ap, ◌∙◌, subst, inl, inr, Bool, true, false, ◌&&◌, Option, none,
  some, List, [], ◌∷◌, arith, ltb, leb, ◌===◌, ℕ_key, text_key, or_else, Bool-cases, Option-cases,
}
use blockrun_multiversx_plat.Base.Dict.{get, set, delete, values, get-set_other}
use blockrun_multiversx_plat.Base.Thrown.{Thrown, ok}
use blockrun_multiversx_plat.Base.Text.{units_key}
use blockrun_multiversx_plat.Router.Ranking.Defs.{
  ProviderSpec, ArbitrageMatrix, RoutingStrategy, with_health, update_health, is_candidate,
  get_ranked_providers, SlaSlasher, SlashPorts, slashed, report_ttft, report_failure,
}
use blockrun_multiversx_plat.Router.Ranking.Sorted.{count_of}
use blockrun_multiversx_plat.Router.Ranking.Ranked.{get_ranked_providers-count_of}

-- Each provider stands once, under its id.
abbrev pub IsKeyed : ArbitrageMatrix → Type 0
IsKeyed [] = Unit {0}
IsKeyed ((k, p) ∷ m) = (p.id ≡ k) × (get k m ≡ none) × IsKeyed m

set-IsKeyed : (p : ProviderSpec) (m : ArbitrageMatrix) → IsKeyed m → IsKeyed (set p.id p m)
unfolding set get
set-IsKeyed p [] h = (refl, refl, tt)
set-IsKeyed p ((k, q) ∷ m) h = elim (Bool-cases (k === p.id)) [
  | inl same ↦
      let e : k ≡ p.id = (text_key.same_iff k p.id).0 same in
      let w : (k, p) ∷ m ≡ set p.id p ((k, q) ∷ m) = ground (arith, same) in
      subst IsKeyed w (sym e, h.1, h.2)
  | inr other ↦
      let w : (k, q) ∷ set p.id p m ≡ set p.id p ((k, q) ∷ m) = ground (arith, other) in
      let apart : (p.id === k) ≡ false =
        ground (arith, other, text_key.same_iff k p.id, text_key.same_iff p.id k) in
      subst IsKeyed w (h.0, get-set_other p.id k p m apart ∙ h.1, set-IsKeyed p m h.2)
]

-- What stands under a key has the key as its id.
get-IsKeyed :
    (k : String) (m : ArbitrageMatrix) (p : ProviderSpec) → IsKeyed m → get k m ≡ some p → p.id ≡ k
unfolding get
get-IsKeyed k [] p h e = absurd cc
get-IsKeyed k ((j, q) ∷ m) p h e = elim (Bool-cases (j === k)) [
  | inl same ↦ let w : j ≡ k = (text_key.same_iff j k).0 same in ground (arith, h.0, w, e, same)
  | inr other ↦ get-IsKeyed k m p h.2 (ground (arith, e, other))
]

update_health-IsKeyed :
    (id : String) (healthy : Bool) (ttft : Option ℕ) (m : ArbitrageMatrix)
    → IsKeyed m
    → IsKeyed (update_health id healthy ttft m)
unfolding update_health
update_health-IsKeyed id healthy ttft m h = elim (Option-cases (get id m)) [
  | inl e ↦ ground (arith, e, h)
  | inr (p, e) ↦
      let same = get-IsKeyed id m p h e in
      let kept = set-IsKeyed (with_health healthy ttft p) m h in
      let w : set id (with_health healthy ttft p) m ≡ update_health id healthy ttft m =
        ground (arith, e) in
      subst IsKeyed w (subst (λ x. IsKeyed (set x (with_health healthy ttft p) m)) same kept)
]

-- No candidate for any model has the id.
abbrev pub IsOut : String → List ProviderSpec → Type 0
IsOut id ps = count_of (λ p. p.id === id) ps ≡ 0

abbrev named_candidate : String → String → ProviderSpec → Bool
named_candidate model id p = is_candidate model p && (p.id === id)

absent_candidates :
    (model id : String) (m : ArbitrageMatrix)
    → IsKeyed m
    → get id m ≡ none
    → count_of (named_candidate model id) (values m) ≡ 0
unfolding get
absent_candidates model id [] h e = refl
absent_candidates model id ((k, p) ∷ m) h e = elim (Bool-cases (k === id)) [
  | inl same ↦ absurd (ground (arith, e, same))
  | inr other ↦
      let rest = absent_candidates model id m h.2 (ground (arith, e, other)) in
      let apart : (p.id === id) ≡ false = ap (λ x. x === id) h.0 ∙ other in
      let unnamed : named_candidate model id p ≡ false = ground (arith, apart) in
      ground (arith, rest, unnamed)
]

unhealthy_candidates :
    (model id : String) (q : ProviderSpec) (m : ArbitrageMatrix)
    → IsKeyed m
    → q.healthy ≡ false
    → count_of (named_candidate model id) (values (set id q m)) ≡ 0
unfolding set get
unhealthy_candidates model id q [] h sick = ground (arith, sick)
unhealthy_candidates model id q ((k, p) ∷ m) h sick = elim (Bool-cases (k === id)) [
  | inl same ↦
      let e : k ≡ id = (text_key.same_iff k id).0 same in
      let rest = absent_candidates model id m h.2 (ap (λ x. get x m) (sym e) ∙ h.1) in
      let unnamed : named_candidate model id q ≡ false = ground (arith, sick) in
      ground (arith, rest, same, unnamed)
  | inr other ↦
      let rest = unhealthy_candidates model id q m h.2 sick in
      let apart : (p.id === id) ≡ false = ap (λ x. x === id) h.0 ∙ other in
      let unnamed : named_candidate model id p ≡ false = ground (arith, apart) in
      ground (arith, rest, other, unnamed)
]

update_health-IsOut :
    (unit : ℕ) (model id : String) (strategy : RoutingStrategy) (ttft : Option ℕ)
    (m : ArbitrageMatrix)
    → IsKeyed m
    → IsOut id (get_ranked_providers unit model strategy (update_health id false ttft m))
unfolding update_health
update_health-IsOut unit model id strategy ttft m h =
    let counted =
      get_ranked_providers-count_of unit model strategy (update_health id false ttft m)
        (λ p. p.id === id) in
    let gone : count_of (named_candidate model id) (values (update_health id false ttft m)) ≡ 0 =
      elim (Option-cases (get id m)) [
        | inl e ↦ let none_named = absent_candidates model id m h e in ground (arith, e, none_named)
        | inr (p, e) ↦
            let none_named = unhealthy_candidates model id (with_health false ttft p) m h refl in
            ground (arith, e, none_named)
      ] in
    counted ∙ gone

-- A report breaches the service level: a first token that is too late, or the failure that reaches the limit.
pub data SlaReport : Type 0 where
  first_token : ℕ → SlaReport
  failure : SlaReport

abbrev pub is_breach : SlaReport → String → SlaSlasher → Bool
is_breach (first_token ttft) provider s = ltb s.max_allowed_ttft_ms ttft
is_breach failure provider s =
    leb s.consecutive_failure_limit (or_else (get provider s.failure_counts) 0 + 1)

module _ (ports : SlashPorts) where
  abbrev pub report_sla :
      ℕ → String → SlaReport → String → SlaSlasher → Thrown (Option String) × SlaSlasher
  report_sla now provider (first_token ttft) hash s = report_ttft ports now provider ttft hash s
  report_sla now provider failure hash s = report_failure ports now provider hash s

  abbrev pub IsSlashing :
      ℕ → String → String → SlaSlasher → Bool → Thrown (Option String) × SlaSlasher → Type 0
  IsSlashing now provider hash s breach (answer, s') =
      IsKeyed s'.matrix
      × (breach ≡ false → answer ≡ ok none)
      × (breach ≡ true
          → (answer ≡ slashed ports now provider hash s)
            × ((unit : ℕ) (model : String) (strategy : RoutingStrategy)
                → IsOut provider (get_ranked_providers unit model strategy s'.matrix)))

  -- After a report that breaches the service level, the provider is offered for no model under any
  -- strategy, whatever the slash returns or throws, and what is returned is the slash's; a report that
  -- does not breach it slashes nobody. Each provider stands once under its id afterwards, as it did before.
  pub report_sla-IsOut :
      (now : ℕ) (provider hash : String) (report : SlaReport) (s : SlaSlasher)
      → IsKeyed s.matrix
      → IsSlashing now provider hash s
          (is_breach report provider s)
          (report_sla now provider report hash s)
  unfolding report_ttft report_failure
  report_sla-IsOut now provider hash (first_token ttft) s h =
      let breach = ltb s.max_allowed_ttft_ms ttft in
      let good = IsSlashing now provider hash s breach in
      elim (Bool-cases breach) [
        | inl late ↦
            subst good
              (let w : (
                slashed ports now provider hash s,
                record s { matrix = update_health provider false (some ttft) s.matrix },
              )
                    ≡ report_ttft ports now provider ttft hash s =
                  ground (arith, late) in
                w)
              (
                update_health-IsKeyed provider false (some ttft) s.matrix h,
                (λ e. absurd cc),
                λ e. (
                  refl,
                  λ unit model strategy.
                      update_health-IsOut unit model provider strategy (some ttft) s.matrix h,
                ),
              )
        | inr soon ↦
            subst good
              (let w : (
                ok none,
                record s {
                  failure_counts = delete provider s.failure_counts;
                  matrix = update_health provider true (some ttft) s.matrix;
                },
              )
                    ≡ report_ttft ports now provider ttft hash s =
                  ground (arith, soon) in
                w)
              (
                update_health-IsKeyed provider true (some ttft) s.matrix h,
                (λ e. refl),
                λ e. absurd cc,
              )
      ]
  report_sla-IsOut now provider hash failure s h =
      let current = or_else (get provider s.failure_counts) 0 + 1 in
      let breach = leb s.consecutive_failure_limit current in
      let good = IsSlashing now provider hash s breach in
      elim (Bool-cases breach) [
        | inl reached ↦
            subst good
              (let w : (
                slashed ports now provider hash s,
                record s {
                  matrix = update_health provider false none s.matrix;
                  failure_counts = delete provider s.failure_counts;
                },
              )
                    ≡ report_failure ports now provider hash s =
                  ground (arith, reached) in
                w)
              (
                update_health-IsKeyed provider false none s.matrix h,
                (λ e. absurd cc),
                λ e. (
                  refl,
                  λ unit model strategy.
                      update_health-IsOut unit model provider strategy none s.matrix h,
                ),
              )
        | inr few ↦
            subst good
              (let w : (
                ok none,
                record s { failure_counts = set provider current s.failure_counts },
              )
                    ≡ report_failure ports now provider hash s =
                  ground (arith, few) in
                w)
              (h, (λ e. refl), λ e. absurd cc)
      ]
