-- ===== src/Services/Facilitator.antt =====
-- src/services/verifier.ts (`IVerifierService`) and src/services/settler.ts as the servers use them:
-- what checks a payment and what settles it, and their implementation by the modelled services. The
-- queue between a server and its settler is Services/Queue.
use blockrun_multiversx_plat.Base.{
  ℕ, String, ◌≡◌, sym, ap, ◌∙◌, inl, inr, true, Option, arith, if◌then◌else◌, ℕ_key, text_key,
  or_else, Bool-cases,
}
use blockrun_multiversx_plat.Base.Thrown.{Thrown, ok, err, Thrown-cases}
use blockrun_multiversx_plat.Base.Text.{truthy_opt, units_key}
use blockrun_multiversx_plat.Domain.{
  Requirements, PayloadContainer, Request, VerifyResponse, SettleResponse,
}
use blockrun_multiversx_plat.Services.Chain.{Tx, Simulation}
use blockrun_multiversx_plat.Services.Verifier.Valid.{Established, verify-Established}
use blockrun_multiversx_plat.Services.Verifier.Verify.{verify}
use blockrun_multiversx_plat.Services.Settler.Defs.{State, Config}
use blockrun_multiversx_plat.Services.Settler.Settle.{settle}

-- `Accepted now s q` is what a valid verdict on `q` vouches for, at a time and in a state.
pub record Facilitator (S : Type 0) (Accepted : ℕ → S → Request → Type 0) : Type 0 where
  pub verify_payment : ℕ → Request → S → Thrown VerifyResponse × S
  pub settle_payment : ℕ → Request → S → Thrown SettleResponse × S
  pub verify_sound :
      (now : ℕ) (q : Request) (s : S) (r : VerifyResponse)
      → (verify_payment now q s).0 ≡ ok r
      → r.is_valid ≡ true
      → Accepted now s q

-- The payload of a payment header, after its JSON is parsed: the payment and what the payer accepted.
pub record PaymentPayload : Type 0 where
  pub payload : PayloadContainer
  pub accepted : Requirements

abbrev pub paying : PaymentPayload → Requirements → Request
paying p r = record { payload = p.payload; accepted = p.accepted; requirements = r }

-- What a server's answer to a paid request starts with: the verifier throws, or refuses, or accepts.
pub data Verdict : Type 0 where
  unanswered : String → Verdict
  refused : VerifyResponse → Verdict
  accepted_payment : Verdict

unfoldable pub verdict_of : Thrown VerifyResponse → Verdict
verdict_of (err m) = unanswered m
verdict_of (ok r) = if r.is_valid then accepted_payment else refused r

-- The receipt: the transaction of the settlement where it gives one, and a random text otherwise.
unfoldable pub receipt_of : String → Thrown SettleResponse → String
receipt_of random (err m) = random
receipt_of random (ok a) = if truthy_opt a.transaction then or_else a.transaction random else random

pub verdict_of-sound :
    {S : Type 0} {Accepted : ℕ → S → Request → Type 0} (f : Facilitator S Accepted) (now : ℕ)
    (q : Request) (s : S)
    → verdict_of (f.verify_payment now q s).0 ≡ accepted_payment
    → Accepted now s q
unfolding verdict_of
verdict_of-sound f now q s h = elim (Thrown-cases (f.verify_payment now q s).0) [
  | inr (m, e) ↦ absurd (let w : unanswered m ≡ accepted_payment = sym (ap verdict_of e) ∙ h in cc)
  | inl (r, e) ↦
      let w : (if r.is_valid then accepted_payment else refused r) ≡ accepted_payment =
        sym (ap verdict_of e) ∙ h in
      elim (Bool-cases r.is_valid) [
        | inl v ↦ f.verify_sound now q s r e v
        | inr v ↦ absurd (ground (arith, w, v))
      ]
]

-- The verifier and the settler of a facilitator that share their relayer pool.
module _ {Addr Bytes Signer : Type 0} (c : Config Addr Bytes Signer)
    (provider : Option (Tx Addr Bytes → Thrown Simulation)) (uuid : String) where
  unfoldable pub services :
      Facilitator (State Addr Bytes Signer) (λ now st q. Established c.sdk provider now st.pool q)
  services = record {
    verify_payment = λ now q st.
        let (r, pool) = verify c.sdk provider now st.pool q in (r, record st { pool = pool });
    settle_payment = λ now q st. let (r, st') = settle c now uuid q st in (r, st');
    verify_sound = λ now q st r h v. verify-Established c.sdk provider now st.pool q r h v;
  }
