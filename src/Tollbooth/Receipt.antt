-- ===== src/Tollbooth/Receipt.antt =====
-- How little the settlement of a payment has to do with the answer of src/tollbooth/tollbooth_server.ts.
use blockrun_multiversx_plat.Base.{
  ℕ, ◌≡◌, refl, ap, ◌∙◌, inl, inr, Bool, true, false, arith, ℕ_key, text_key, or_else, Bool-cases,
}
use blockrun_multiversx_plat.Base.Thrown.{Thrown, ok, err}
use blockrun_multiversx_plat.Base.Text.{truthy_opt, units_key}
use blockrun_multiversx_plat.Domain.{Request, VerifyResponse}
use blockrun_multiversx_plat.Services.Facilitator.{
  Facilitator, PaymentPayload, paying, Verdict, unanswered, refused, accepted_payment, verdict_of,
}
use blockrun_multiversx_plat.Tollbooth.Pricing.{Tier, TollCalculationResult}
use blockrun_multiversx_plat.Tollbooth.Server.{
  CachedMarkdownEntry, Settings, Ports, PageRequest, PageResponse, forbidden, proxied, challenge,
  malformed_header, payment_refused, not_modified, served, bad_gateway, handler_threw, Tollbooth,
  either_header, toll_for, page_requirements, decode_header, is_unchanged, settle_page, answer_page,
  paid_page, on_verdict, on_header, bot_page, get_page,
}

-- The answer to a request but for the receipt, which is all that a settlement gives to it.
abbrev pub unreceipted : PageResponse → PageResponse
unreceipted (served page) = served (record page { receipt = "" })
unreceipted forbidden = forbidden
unreceipted proxied = proxied
unreceipted (challenge r) = challenge r
unreceipted malformed_header = malformed_header
unreceipted (payment_refused r) = payment_refused r
unreceipted (not_modified etag hit) = not_modified etag hit
unreceipted (bad_gateway m) = bad_gateway m
unreceipted (handler_threw m) = handler_threw m

module _ (settings : Settings) (ports : Ports) where
  module _ {S : Type 0} {Accepted : ℕ → S → Request → Type 0} where
    settle_page-unreceipted :
        (f g : Facilitator S Accepted) (b c : Bool) (now : ℕ) (q : PageRequest) (payment : Request)
        (tier : Tier) (entry : CachedMarkdownEntry) (hit : Bool) (t : Tollbooth S)
        → unreceipted (settle_page settings ports f b now q payment tier (entry, hit) t).0
          ≡ unreceipted (settle_page settings ports g c now q payment tier (entry, hit) t).0
    unfolding settle_page
    settle_page-unreceipted f g true true now q payment tier entry hit t = refl
    settle_page-unreceipted f g true false now q payment tier entry hit t = refl
    settle_page-unreceipted f g false true now q payment tier entry hit t = refl
    settle_page-unreceipted f g false false now q payment tier entry hit t = refl

    answer_page-unreceipted :
        (f g : Facilitator S Accepted) (b c : Bool) (now : ℕ) (q : PageRequest) (payment : Request)
        (tier : Tier) (loaded : Thrown (CachedMarkdownEntry × Bool)) (t : Tollbooth S)
        → unreceipted (answer_page settings ports f b now q payment tier loaded t).0
          ≡ unreceipted (answer_page settings ports g c now q payment tier loaded t).0
    unfolding answer_page
    answer_page-unreceipted f g b c now q payment tier (err m) t = refl
    answer_page-unreceipted f g b c now q payment tier (ok (entry, hit)) t =
        let e = settle_page-unreceipted f g b c now q payment tier entry hit t in
        elim (Bool-cases (is_unchanged settings ports q.if_none_match entry.etag)) [
          | inl u ↦ ground (arith, u)
          | inr u ↦ ground (arith, u, e)
        ]

    on_verdict-unreceipted :
        (f g : Facilitator S Accepted) (b c : Bool) (now : ℕ) (q : PageRequest) (payment : Request)
        (tier : Tier) (v : Verdict) (t : Tollbooth S)
        → unreceipted (on_verdict settings ports f b now q payment tier v t).0
          ≡ unreceipted (on_verdict settings ports g c now q payment tier v t).0
    unfolding on_verdict paid_page
    on_verdict-unreceipted f g b c now q payment tier (unanswered m) t = refl
    on_verdict-unreceipted f g b c now q payment tier (refused r) t = refl
    on_verdict-unreceipted f g b c now q payment tier accepted_payment t =
        answer_page-unreceipted f g b c now q payment tier _ _

    on_header-unreceipted :
        (f g : Facilitator S Accepted) (b c : Bool) (now : ℕ) (q : PageRequest)
        (toll : TollCalculationResult) (d : Thrown PaymentPayload) (t : Tollbooth S)
        → ((payment : Request) (s : S)
            → f.verify_payment now payment s ≡ g.verify_payment now payment s)
        → unreceipted (on_header settings ports f b now q toll d t).0
          ≡ unreceipted (on_header settings ports g c now q toll d t).0
    unfolding on_header
    on_header-unreceipted f g b c now q toll (err m) t same = refl
    on_header-unreceipted f g b c now q toll (ok p) t same =
        let payment = paying p (page_requirements settings ports toll) in
        let after : Thrown VerifyResponse × S → PageResponse = λ x.
          unreceipted
            (on_verdict settings ports f b now q payment toll.tier (verdict_of x.0)
              (record t { facilitator = x.1 })).0 in
        ap after (same payment t.facilitator)
        ∙ on_verdict-unreceipted f g b c now q payment toll.tier _ _

    -- Two facilitators that verify alike make the server answer a request alike but for the receipt:
    -- a settlement that throws, that fails or that there is no queue for leaves the page, and the
    -- header that says that the payment is settled, as they are after a success.
    pub get_page-unreceipted :
        (f g : Facilitator S Accepted) (b c : Bool) (now : ℕ) (q : PageRequest) (t : Tollbooth S)
        → ((payment : Request) (s : S)
            → f.verify_payment now payment s ≡ g.verify_payment now payment s)
        → unreceipted (get_page settings ports f b now q t).0
          ≡ unreceipted (get_page settings ports g c now q t).0
    unfolding get_page bot_page
    get_page-unreceipted f g b c now q t same =
        let header =
          on_header-unreceipted f g b c now q (toll_for settings ports q)
            (decode_header settings ports
              (or_else (either_header q.payment_signature q.x_payment_signature) ""))
            t same in
        elim (Bool-cases q.is_spoofed) [
          | inl s ↦ ground (arith, s)
          | inr s ↦ elim (Bool-cases q.is_bot) [
            | inr p ↦ ground (arith, s, p)
            | inl p ↦
                elim (Bool-cases
                  (truthy_opt (either_header q.payment_signature q.x_payment_signature))) [
                    | inl r ↦ ground (arith, s, p, r, header)
                    | inr r ↦ ground (arith, s, p, r)
                  ]
          ]
        ]
