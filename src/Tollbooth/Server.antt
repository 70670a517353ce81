-- ===== src/Tollbooth/Server.antt =====
-- src/tollbooth/tollbooth_server.ts: the handler of `GET *`, which forwards people to the origin and
-- lets crawlers pay for a page as Markdown. The classifier's verdict on a request is an input; the
-- parts that the server is configured with are `Ports`. One time is read in a request.
use blockrun_multiversx_plat.Base.{
  ℕ, ◌-◌, String, Bool, true, false, ◌&&◌, Option, none, some, ltb, if◌then◌else◌, ◌===◌, ℕ_key,
  text_key, or_else,
}
use blockrun_multiversx_plat.Base.Dict.{Dict, get, set}
use blockrun_multiversx_plat.Base.Thrown.{Thrown, ok, err}
use blockrun_multiversx_plat.Base.Text.{
  units, ◌<>◌, truthy, truthy_opt, starts_with, show_ℕ, units_key,
}
use blockrun_multiversx_plat.Base.Int.{ℤ}
use blockrun_multiversx_plat.Domain.{Requirements, Request, VerifyResponse}
use blockrun_multiversx_plat.Services.Facilitator.{
  Facilitator, PaymentPayload, paying, Verdict, unanswered, refused, accepted_payment, verdict_of,
  receipt_of,
}
use blockrun_multiversx_plat.Tollbooth.Pricing.{
  Tier, TollPricingEngine, TollCalculationResult, calculate_toll,
}
use blockrun_multiversx_plat.Tollbooth.Abuse.{AbuseReporter, Feedback, record_failure}

pub record CachedMarkdownEntry : Type 0 where
  pub markdown : String
  pub etag : String
  pub timestamp : ℕ
  pub estimated_tokens : ℕ

pub record Settings : Type 0 where
  pub pricing_engine : TollPricingEngine
  pub cache_ttl_ms : ℕ
  pub origin_url : String
  pub network : String
  pub token_identifier : String

-- The SDK's shards, the reputation contract, the giving of feedback, the parsing of a payment header
-- (JSON, and base64 before it), the origin, the extractor of Markdown with its estimate of tokens, and
-- the ETag of a text.
pub record Ports : Type 0 where
  pub shard_of : String → Thrown ℕ
  pub get_agent_score : Option (ℕ → Thrown (Option ℤ))
  pub give_feedback : Feedback → Thrown String
  pub from_base64 : String → String
  pub parse_payload : String → Thrown PaymentPayload
  pub fetch_origin : String → Thrown String
  pub extract : String → String × ℕ
  pub etag_of : String → String

-- What the handler reads of a request; an agent's nonce is the number in its header.
pub record PageRequest : Type 0 where
  pub original_url : String
  pub is_bot : Bool
  pub is_spoofed : Bool
  pub forwarded_ip : String
  pub socket_ip : String
  pub payment_signature : Option String
  pub x_payment_signature : Option String
  pub payer_address : Option String
  pub agent_nonce : Option ℕ
  pub if_none_match : Option String
  pub random_hash : String

pub record ServedPage : Type 0 where
  pub markdown : String
  pub etag : String
  pub is_cache_hit : Bool
  pub receipt : String
  pub tokens : ℕ
  pub tier : Tier

-- The answers of the handler. `served` is the one with `X-Payment-Settled: true`; after
-- `handler_threw` nothing is sent.
pub data PageResponse : Type 0 where
  forbidden : PageResponse
  proxied : PageResponse
  challenge : Requirements → PageResponse
  malformed_header : PageResponse
  payment_refused : VerifyResponse → PageResponse
  not_modified : String → Bool → PageResponse
  served : ServedPage → PageResponse
  bad_gateway : String → PageResponse
  handler_threw : String → PageResponse

pub record Tollbooth (S : Type 0) : Type 0 where
  pub markdown_cache : Dict String CachedMarkdownEntry
  pub abuse_reporter : Option AbuseReporter
  pub facilitator : S

abbrev pub PageAnswer : Type 0 → Type 0
PageAnswer S = PageResponse × Tollbooth S

-- `a || b` on headers.
abbrev pub either_header : Option String → Option String → Option String
either_header a b = if truthy_opt a then a else b

module _ (settings : Settings) (ports : Ports) where
  unfoldable pub reputation_score : Option ℕ → Option ℤ
  reputation_score none = none
  reputation_score (some nonce) = elim ports.get_agent_score [
    | none ↦ none
    | some score ↦ elim (score nonce) [ ok s ↦ s | err m ↦ none ]
  ]

  unfoldable pub toll_for : PageRequest → TollCalculationResult
  toll_for q =
      calculate_toll ports.shard_of settings.pricing_engine 1250 (reputation_score q.agent_nonce)
        q.payer_address

  unfoldable pub page_requirements : TollCalculationResult → Requirements
  page_requirements toll = record {
    scheme = "exact";
    network = settings.network;
    asset = settings.token_identifier;
    amount = show_ℕ toll.micro_usdc;
    pay_to = toll.merchant_address;
    max_timeout_seconds = 300;
  }

  -- A header that does not start like JSON is base64.
  unfoldable pub decode_header : String → Thrown PaymentPayload
  decode_header raw =
      if starts_with (units raw) (units "{")
      then ports.parse_payload raw
      else ports.parse_payload (ports.from_base64 raw)

  abbrev pub new_entry : ℕ → String → CachedMarkdownEntry
  new_entry now html = record {
    markdown = (ports.extract html).0;
    etag = ports.etag_of (ports.extract html).0;
    timestamp = now;
    estimated_tokens = (ports.extract html).1;
  }

  -- The page from the origin and into the cache. A page comes with whether the cache had it.
  abbrev pub fetch_page :
      ℕ
      → String
      → Thrown String
      → Dict String CachedMarkdownEntry
      → Thrown (CachedMarkdownEntry × Bool) × Dict String CachedMarkdownEntry
  fetch_page now url (err m) cache = (err m, cache)
  fetch_page now url (ok html) cache =
      (ok (new_entry now html, false), set url (new_entry now html) cache)

  abbrev pub is_fresh : ℕ → Option CachedMarkdownEntry → Bool
  is_fresh now none = false
  is_fresh now (some entry) = ltb (now - entry.timestamp) settings.cache_ttl_ms

  -- The page out of the cache while it is fresh, and otherwise from the origin.
  abbrev pub load_from :
      ℕ
      → String
      → Option CachedMarkdownEntry
      → Dict String CachedMarkdownEntry
      → Thrown (CachedMarkdownEntry × Bool) × Dict String CachedMarkdownEntry
  load_from now url none cache = fetch_page now url (ports.fetch_origin url) cache
  load_from now url (some entry) cache =
      if is_fresh now (some entry)
      then (ok (entry, true), cache)
      else fetch_page now url (ports.fetch_origin url) cache

  unfoldable pub load_page :
      ℕ
      → String
      → Dict String CachedMarkdownEntry
      → Thrown (CachedMarkdownEntry × Bool) × Dict String CachedMarkdownEntry
  load_page now url cache = load_from now url (get url cache) cache

  -- `if (ifNoneMatch && ifNoneMatch === etag)`
  abbrev pub is_unchanged : Option String → String → Bool
  is_unchanged none etag = false
  is_unchanged (some h) etag = truthy h && (h === etag)

  module _ {S : Type 0} where
    -- A failure is recorded before an answer, where there is a reporter; feedback may throw.
    unfoldable pub after_failure : ℕ → String → Option ℕ → PageResponse → Tollbooth S → PageAnswer S
    after_failure now ip nonce answer t = elim t.abuse_reporter [
      | none ↦ (answer, t)
      | some reporter ↦
          let (feedback, reporter') = record_failure now ip nonce reporter in
          let t' = record t { abuse_reporter = some reporter' } in
          elim feedback [
            | none ↦ (answer, t')
            | some f ↦ elim (ports.give_feedback f) [
              | ok h ↦ (answer, t')
              | err m ↦ (handler_threw m, t')
            ]
          ]
    ]

    module _ {Accepted : ℕ → S → Request → Type 0} (f : Facilitator S Accepted)
        (settles : Bool) where
      -- The settlement, where there is a queue, and the page. What the settlement answers or throws
      -- shows in the receipt only.
      unfoldable pub settle_page :
          ℕ → PageRequest → Request → Tier → CachedMarkdownEntry × Bool → Tollbooth S → PageAnswer S
      settle_page now q payment tier (entry, hit) t =
          let (settlement, s) = f.settle_payment now payment t.facilitator in
          let page : String → PageResponse = λ receipt. served (record {
            markdown = entry.markdown;
            etag = entry.etag;
            is_cache_hit = hit;
            receipt = receipt;
            tokens = entry.estimated_tokens;
            tier = tier;
          }) in
          if settles
          then (page (receipt_of q.random_hash settlement), record t { facilitator = s })
          else (page q.random_hash, t)

      unfoldable pub answer_page :
          ℕ
          → PageRequest
          → Request
          → Tier
          → Thrown (CachedMarkdownEntry × Bool)
          → Tollbooth S
          → PageAnswer S
      answer_page now q payment tier (err m) t = (bad_gateway m, t)
      answer_page now q payment tier (ok (entry, hit)) t =
          if is_unchanged q.if_none_match entry.etag
          then (not_modified entry.etag hit, t)
          else settle_page now q payment tier (entry, hit) t

      unfoldable pub paid_page : ℕ → PageRequest → Request → Tier → Tollbooth S → PageAnswer S
      paid_page now q payment tier t =
          let (loaded, cache) =
            load_page now (settings.origin_url <> q.original_url) t.markdown_cache in
          answer_page now q payment tier loaded (record t { markdown_cache = cache })

      unfoldable pub on_verdict :
          ℕ → PageRequest → Request → Tier → Verdict → Tollbooth S → PageAnswer S
      on_verdict now q payment tier (unanswered m) t = (handler_threw m, t)
      on_verdict now q payment tier (refused r) t =
          after_failure now q.socket_ip q.agent_nonce (payment_refused r) t
      on_verdict now q payment tier accepted_payment t = paid_page now q payment tier t

      unfoldable pub on_header :
          ℕ
          → PageRequest
          → TollCalculationResult
          → Thrown PaymentPayload
          → Tollbooth S
          → PageAnswer S
      on_header now q toll (err m) t =
          after_failure now q.socket_ip q.agent_nonce malformed_header t
      on_header now q toll (ok p) t =
          let payment = paying p (page_requirements toll) in
          let (answer, s) = f.verify_payment now payment t.facilitator in
          on_verdict now q payment toll.tier (verdict_of answer) (record t { facilitator = s })

      unfoldable pub bot_page : ℕ → PageRequest → Tollbooth S → PageAnswer S
      bot_page now q t =
          let toll = toll_for q in
          let raw = either_header q.payment_signature q.x_payment_signature in
          if truthy_opt raw
          then on_header now q toll (decode_header (or_else raw "")) t
          else (challenge (page_requirements toll), t)

      unfoldable pub get_page : ℕ → PageRequest → Tollbooth S → PageAnswer S
      get_page now q t =
          if q.is_spoofed
          then after_failure now q.forwarded_ip none forbidden t
          else (if q.is_bot then bot_page now q t else (proxied, t))
