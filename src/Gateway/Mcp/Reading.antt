-- ===== src/Gateway/Mcp/Reading.antt =====
-- src/gateway/mcp_gateway.ts: `POST /mcp/v1/resources/read`, which is paid like a call at a fixed price,
-- and `POST /mcp/v1/reputation/feedback`.
use blockrun_multiversx_plat.Base.{
  ℕ, String, ◌≡◌, refl, inl, inr, not, ◌||◌, Option, none, some, arith, if◌then◌else◌, ℕ_key,
  text_key, or_else, Bool-cases,
}
use blockrun_multiversx_plat.Base.Thrown.{Thrown, ok, err}
use blockrun_multiversx_plat.Base.Text.{◌<>◌, truthy_opt, show_ℕ, units_key}
use blockrun_multiversx_plat.Base.Int.{ℤ, pos, ltb_ℤ}
use blockrun_multiversx_plat.Domain.{Requirements, Request, VerifyResponse}
use blockrun_multiversx_plat.Services.Merchants.Defs.{get_merchant_address_for_user}
use blockrun_multiversx_plat.Services.Facilitator.{
  Facilitator, PaymentPayload, paying, Verdict, unanswered, refused, accepted_payment, verdict_of,
  receipt_of, verdict_of-sound,
}
use blockrun_multiversx_plat.Gateway.Mcp.Calls.{
  McpSettings, McpPorts, CallRequest, raw_signature, decode_payment,
}

-- `read` is the answer with `X-Payment-Settled: true`.
pub data ReadResponse : Type 0 where
  missing_uri : ReadResponse
  read_challenge : Requirements → ReadResponse
  malformed_read : ReadResponse
  read_refused : VerifyResponse → ReadResponse
  read_threw : String → ReadResponse
  resource : (uri text receipt : String) → ReadResponse

pub data FeedbackResponse : Type 0 where
  missing_fields : FeedbackResponse
  bad_rating : FeedbackResponse
  feedback_given : (transaction employer : String) → FeedbackResponse
  feedback_failed : String → FeedbackResponse

-- The handler of feedback: a missing nonce or rating is one that is no number.
unfoldable pub give_feedback :
    Option (String → ℤ → ℤ → Thrown String)
    → ℕ
    → (job employer : Option String) → (agent rating : Option ℤ) → FeedbackResponse
give_feedback client now job employer none rating = missing_fields
give_feedback client now job employer (some agent) none = missing_fields
give_feedback client now job employer (some agent) (some rating) =
    let sent : Thrown String = elim client [
      | none ↦ ok ("feedback-tx-" <> show_ℕ now)
      | some give ↦ give (or_else job "") agent rating
    ] in
    let answer : FeedbackResponse = elim sent [
      | ok h ↦ feedback_given h (or_else employer "anonymous")
      | err m ↦ feedback_failed m
    ] in
    if not (truthy_opt job)
    then missing_fields
    else (if ltb_ℤ rating (pos 1) || ltb_ℤ (pos 100) rating then bad_rating else answer)

module _ {Addr Key Sig Local Args : Type 0} (settings : McpSettings)
    (ports : McpPorts Addr Key Sig Local Args) where
  unfoldable pub read_requirements : CallRequest Args → Requirements
  read_requirements q = record {
    scheme = "exact";
    network = settings.network;
    asset = "USDC-c76f1f";
    amount = "1000";
    pay_to =
        (get_merchant_address_for_user ports.shard_of q.payer_address settings.merchant_pool).0;
    max_timeout_seconds = 300;
  }

  module _ {S : Type 0} {Accepted : ℕ → S → Request → Type 0} (f : Facilitator S Accepted) where
    unfoldable pub on_read_verdict :
        CallRequest Args → String → Request → Verdict → S → ReadResponse × S
    on_read_verdict q uri payment (unanswered m) s = (read_threw m, s)
    on_read_verdict q uri payment (refused r) s = (read_refused r, s)
    on_read_verdict q uri payment accepted_payment s =
        let (settlement, s') = f.settle_payment q.timing.started payment s in
        let page : String → ReadResponse = resource uri ("Resource content for " <> uri) in
        if settings.settles
        then (page (receipt_of q.random_hash settlement), s')
        else (page q.random_hash, s)

    unfoldable pub on_read_header :
        CallRequest Args → String → Thrown PaymentPayload → S → ReadResponse × S
    on_read_header q uri (err m) s = (malformed_read, s)
    on_read_header q uri (ok p) s =
        let payment = paying p (read_requirements q) in
        let (answer, s') = f.verify_payment q.timing.started payment s in
        on_read_verdict q uri payment (verdict_of answer) s'

    unfoldable pub read_resource : CallRequest Args → Option String → S → ReadResponse × S
    read_resource q uri s =
        let raw = raw_signature q in
        let paid =
          on_read_header q (or_else uri "") (decode_payment settings ports (or_else raw "")) s in
        if not (truthy_opt uri)
        then (missing_uri, s)
        else (if truthy_opt raw then paid else (read_challenge (read_requirements q), s))

    on_read_verdict-accepted :
        (q : CallRequest Args) (uri : String) (payment : Request) (v : Verdict) (s : S)
        (u text receipt : String)
        → (on_read_verdict q uri payment v s).0 ≡ resource u text receipt
        → v ≡ accepted_payment
    unfolding on_read_verdict
    on_read_verdict-accepted q uri payment (unanswered m) s u text receipt h = cc
    on_read_verdict-accepted q uri payment (refused r) s u text receipt h = cc
    on_read_verdict-accepted q uri payment accepted_payment s u text receipt h = refl

    on_read_header-Accepted :
        (q : CallRequest Args) (uri : String) (d : Thrown PaymentPayload) (s : S)
        (u text receipt : String)
        → (on_read_header q uri d s).0 ≡ resource u text receipt
        → (p : PaymentPayload) × (d ≡ ok p)
          × Accepted q.timing.started s (paying p (read_requirements q))
    unfolding on_read_header
    on_read_header-Accepted q uri (err m) s u text receipt h = cc
    on_read_header-Accepted q uri (ok p) s u text receipt h = (
      p,
      refl,
      verdict_of-sound f q.timing.started (paying p (read_requirements q)) s
          (on_read_verdict-accepted q uri _ _ _ u text receipt h),
    )

    -- A resource is read out only for a payment header that holds a payload that the verifier accepts
    -- against the fixed price, to the merchant of the payer's shard.
    pub read_resource-Accepted :
        (q : CallRequest Args) (uri : Option String) (s : S) (u text receipt : String)
        → (read_resource q uri s).0 ≡ resource u text receipt
        → (p : PaymentPayload) × (decode_payment settings ports (or_else (raw_signature q) "")
            ≡ ok p)
          × Accepted q.timing.started s (paying p (read_requirements q))
    unfolding read_resource
    read_resource-Accepted q uri s u text receipt h = elim (Bool-cases (truthy_opt uri)) [
      | inr e ↦ absurd (ground (arith, h, e))
      | inl e ↦ elim (Bool-cases (truthy_opt (raw_signature q))) [
        | inr e' ↦ absurd (ground (arith, h, e, e'))
        | inl e' ↦
            on_read_header-Accepted q (or_else uri "") _ s u text receipt (ground (arith, h, e, e'))
      ]
    ]
