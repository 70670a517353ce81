-- ===== src/Tollbooth/Paid.antt =====
-- A page of src/tollbooth/tollbooth_server.ts goes to a crawler only for a payment that the verifier
-- accepted, and what the settlement answers shows in the receipt only.
use blockrun_multiversx_plat.Base.{
  ℕ, String, ◌≡◌, refl, inl, inr, Bool, true, false, Option, none, arith, ℕ_key, text_key, or_else,
  Bool-cases, Option-cases,
}
use blockrun_multiversx_plat.Base.Thrown.{Thrown, ok, err, Thrown-cases}
use blockrun_multiversx_plat.Base.Text.{truthy_opt, units_key}
use blockrun_multiversx_plat.Domain.{Request}
use blockrun_multiversx_plat.Services.Facilitator.{
  Facilitator, PaymentPayload, paying, Verdict, unanswered, refused, accepted_payment,
  verdict_of-sound,
}
use blockrun_multiversx_plat.Tollbooth.Pricing.{Tier, TollCalculationResult}
use blockrun_multiversx_plat.Tollbooth.Abuse.{record_failure}
use blockrun_multiversx_plat.Tollbooth.Server.{
  Settings, Ports, PageRequest, PageResponse, forbidden, proxied, challenge, malformed_header,
  payment_refused, not_modified, served, bad_gateway, handler_threw, Tollbooth, either_header,
  toll_for, page_requirements, decode_header, after_failure, on_verdict, on_header, bot_page,
  get_page,
}

-- An answer that gives a page, or says that the page has not changed.
abbrev pub gives_page : PageResponse → Bool
gives_page forbidden = false
gives_page proxied = false
gives_page (challenge r) = false
gives_page malformed_header = false
gives_page (payment_refused r) = false
gives_page (not_modified etag hit) = true
gives_page (served page) = true
gives_page (bad_gateway m) = false
gives_page (handler_threw m) = false

module _ (settings : Settings) (ports : Ports) {S : Type 0} where
  pub after_failure-refuses :
      (now : ℕ) (ip : String) (nonce : Option ℕ) (answer : PageResponse) (t : Tollbooth S)
      → gives_page answer ≡ false
      → gives_page (after_failure settings ports now ip nonce answer t).0 ≡ false
  unfolding after_failure
  after_failure-refuses now ip nonce answer t h = elim (Option-cases t.abuse_reporter) [
    | inl e ↦ ground (arith, e, h)
    | inr (a, e) ↦ elim (Option-cases (record_failure now ip nonce a).0) [
      | inl n ↦ ground (arith, e, n, h)
      | inr (k, n) ↦ elim (Thrown-cases (ports.give_feedback k)) [
        | inl (x, g) ↦ ground (arith, e, n, g, h)
        | inr (m, g) ↦ ground (arith, e, n, g, h)
      ]
    ]
  ]

  module _ {Accepted : ℕ → S → Request → Type 0} (f : Facilitator S Accepted) (settles : Bool) where
    on_verdict-accepted :
        (now : ℕ) (q : PageRequest) (payment : Request) (tier : Tier) (v : Verdict)
        (t : Tollbooth S)
        → gives_page (on_verdict settings ports f settles now q payment tier v t).0 ≡ true
        → v ≡ accepted_payment
    unfolding on_verdict
    on_verdict-accepted now q payment tier (unanswered m) t h = cc
    on_verdict-accepted now q payment tier (refused r) t h = absurd (
        let e = after_failure-refuses now q.socket_ip q.agent_nonce (payment_refused r) t refl in
        ground (arith, e, h))
    on_verdict-accepted now q payment tier accepted_payment t h = refl

    -- The payment of a request: its header holds a payload, and the payload meets the toll.
    abbrev pub PaysToll : ℕ → PageRequest → S → Type 0
    PaysToll now q s =
        (p : PaymentPayload) × (decode_header settings ports
            (or_else (either_header q.payment_signature q.x_payment_signature) "")
          ≡ ok p)
        × Accepted now s (paying p (page_requirements settings ports (toll_for settings ports q)))

    on_header-Accepted :
        (now : ℕ) (q : PageRequest) (toll : TollCalculationResult) (d : Thrown PaymentPayload)
        (t : Tollbooth S)
        → gives_page (on_header settings ports f settles now q toll d t).0 ≡ true
        → (p : PaymentPayload) × (d ≡ ok p)
          × Accepted now t.facilitator (paying p (page_requirements settings ports toll))
    unfolding on_header
    on_header-Accepted now q toll (err m) t h = absurd (
        let e = after_failure-refuses now q.socket_ip q.agent_nonce malformed_header t refl in
        ground (arith, e, h))
    on_header-Accepted now q toll (ok p) t h = (
      p,
      refl,
      verdict_of-sound f now (paying p (page_requirements settings ports toll)) t.facilitator
          (on_verdict-accepted now q _ toll.tier _ _ h),
    )

    -- Whatever crawler gets a page, or is told that its page has not changed, has sent a payment
    -- header whose payload the verifier accepts, at that time, against the toll of this request; the
    -- request was not taken for a spoofed one.
    pub get_page-PaysToll :
        (now : ℕ) (q : PageRequest) (t : Tollbooth S)
        → gives_page (get_page settings ports f settles now q t).0 ≡ true
        → (q.is_spoofed ≡ false) × (q.is_bot ≡ true) × PaysToll now q t.facilitator
    unfolding get_page bot_page
    get_page-PaysToll now q t h = elim (Bool-cases q.is_spoofed) [
      | inl s ↦ absurd (
          let e = after_failure-refuses now q.forwarded_ip none forbidden t refl in
          ground (arith, e, h, s))
      | inr s ↦ elim (Bool-cases q.is_bot) [
        | inr b ↦ absurd (ground (arith, h, s, b))
        | inl b ↦
            elim (Bool-cases
              (truthy_opt (either_header q.payment_signature q.x_payment_signature))) [
                | inr r ↦ absurd (ground (arith, h, s, b, r))
                | inl r ↦ (
                  s,
                  b,
                  on_header-Accepted now q (toll_for settings ports q) _ t
                      (ground (arith, h, s, b, r)),
                )
              ]
      ]
    ]
