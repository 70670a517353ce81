-- ===== src/Services/Queue/Permanent.antt =====
-- src/services/settlement_queue.ts against src/services/settler.ts: which failures are retried.
use blockrun_multiversx_plat.Base.{
  ℕ, String, ◌≡◌, refl, sym, ap, ◌∙◌, subst, ◌⊎◌, inl, inr, true, false, some, arith, ℕ_key,
  text_key, if_both,
}
use blockrun_multiversx_plat.Base.Thrown.{Thrown, ok, Thrown-cases, ok_inj}
use blockrun_multiversx_plat.Base.Text.{units, ◌<>◌, units_key}
use blockrun_multiversx_plat.Domain.{payment_unfunded, payment_invalid, Request, SettleResponse}
use blockrun_multiversx_plat.Services.Chain.{Tx}
use blockrun_multiversx_plat.Services.Settler.Defs.{
  State, Config, Failure, failing, broadcast_code, broadcast,
}
use blockrun_multiversx_plat.Services.Settler.Settle.{settle_failed, settle_completed, settle_sent}
use blockrun_multiversx_plat.Services.Queue.Defs.{transient_response, default_is_transient_error}

-- A code of the two that a settler gives to what fails after the verification.
abbrev IsPermanent : Failure → Type 0
IsPermanent f = (f.code ≡ payment_invalid) ⊎ (f.code ≡ payment_unfunded)

abbrev IsFinal : Thrown SettleResponse → Type 0
IsFinal r =
    (a : SettleResponse) → r ≡ ok a → a.success ≡ false → default_is_transient_error r ≡ false

failing-IsFinal :
    (f : Failure) (network payer : String)
    → IsPermanent f
    → default_is_transient_error (ok (failing f network payer)) ≡ false
unfolding default_is_transient_error transient_response
failing-IsFinal f network payer (inl e) = ground (arith, e)
failing-IsFinal f network payer (inr e) = ground (arith, e)

module _ {Addr Bytes Signer : Type 0} (c : Config Addr Bytes Signer) (now : ℕ) (i : String)
    (q : Request) where
  settle_sent-IsFinal :
      (r : Failure ⊎ String) (st : State Addr Bytes Signer)
      → ((f : Failure) → r ≡ inl f → IsPermanent f)
      → IsFinal (settle_sent c now i q r st).0
  unfolding settle_sent settle_completed settle_failed
  settle_sent-IsFinal (inl f) st p = λ a e bad. failing-IsFinal f _ _ (p f refl)
  settle_sent-IsFinal (inr h) st p =
      λ a e bad. absurd (let w : true ≡ false = ap (λ x. x.success) (ok_inj _ _ e) ∙ bad in cc)

  broadcast-IsPermanent : (t : Tx Addr Bytes) (f : Failure) → broadcast c t ≡ inl f → IsPermanent f
  unfolding broadcast
  broadcast-IsPermanent t f e = elim (Thrown-cases (c.send_transaction t)) [
    | inl (h, sent) ↦ absurd (ground (arith, e, sent))
    | inr (m, failed_so) ↦
        let same : f ≡ record {
          reason = some (units ("Broadcast failed: " <> m));
          code = broadcast_code (units m);
        } =
          ground (arith, e, failed_so) in
        subst IsPermanent (sym same) (
          if_both (λ x. (x ≡ payment_invalid) ⊎ (x ≡ payment_unfunded)) _ _ _ (inr refl) (inl refl))
  ]

-- A broadcast that fails is answered with a code that the default classifier of the queue takes for
-- permanent, whatever the network said, so that the queue never tries it again: not for a timeout,
-- not for a rate limit.
pub broadcast-never_retried :
    {Addr Bytes Signer : Type 0} (c : Config Addr Bytes Signer) (now : ℕ) (i : String) (q : Request)
    (t : Tx Addr Bytes) (st : State Addr Bytes Signer) (a : SettleResponse)
    → (settle_sent c now i q (broadcast c t) st).0 ≡ ok a
    → a.success ≡ false
    → default_is_transient_error (ok a) ≡ false
broadcast-never_retried c now i q t st a e bad =
    subst (λ r. default_is_transient_error r ≡ false) e
      (settle_sent-IsFinal c now i q (broadcast c t) st (broadcast-IsPermanent c now i q t) a e bad)
