-- ===== src/Tollbooth/Tests.antt =====
-- Runs of the tollbooth, and its theorems at concrete inputs.
use blockrun_multiversx_plat.Base.{
  ℕ, ◌+◌, ◌*◌, ◌≤◌, ◌<◌, String, ◌≡◌, refl, ap, true, false, none, some, List, [], ◌∷◌, arith,
  ℕ_key, text_key,
}
use blockrun_multiversx_plat.Base.Dict.{get}
use blockrun_multiversx_plat.Base.Thrown.{ok, err}
use blockrun_multiversx_plat.Base.Lists.{All}
use blockrun_multiversx_plat.Base.Text.{units_key}
use blockrun_multiversx_plat.Base.Int.{pos, round_div}
use blockrun_multiversx_plat.Domain.{Requirements, direct}
use blockrun_multiversx_plat.Services.Samples.{answering, asked, paid}
use blockrun_multiversx_plat.Services.Settler.Defs.{State, Config}
use blockrun_multiversx_plat.Services.Settler.Samples.{settling, start, run_settler}
use blockrun_multiversx_plat.Services.Merchants.Defs.{
  MerchantPool, get_merchant_address_for_shard, get_shard_of_address, get_merchant_address_for_user,
}
use blockrun_multiversx_plat.Services.Facilitator.{verdict_of, receipt_of, services}
use blockrun_multiversx_plat.Tollbooth.Pricing.{
  probe, default_engine, raw_cost, final_cost, calculate_toll,
}
use blockrun_multiversx_plat.Tollbooth.Prices.{calculate_toll_mono}
use blockrun_multiversx_plat.Tollbooth.Abuse.{
  FailureEntry, default_reporter, failure_key, record_failure,
}
use blockrun_multiversx_plat.Tollbooth.Reports.{record_all, counted, IsOpen, record_all-reports}
use blockrun_multiversx_plat.Tollbooth.Server.{
  Settings, Ports, PageRequest, ServedPage, served, Tollbooth, reputation_score, toll_for,
  page_requirements, decode_header, load_page, after_failure, settle_page, answer_page, paid_page,
  on_verdict, on_header, bot_page, get_page,
}
use blockrun_multiversx_plat.Tollbooth.Paid.{gives_page, PaysToll, get_page-PaysToll}
use blockrun_multiversx_plat.Tollbooth.Cache.{target, ServesEntry, get_page-ServesEntry}
use blockrun_multiversx_plat.Tollbooth.Receipt.{unreceipted, get_page-unreceipted}

abbrev page_price : Requirements
page_price = record asked { amount = "2" }

abbrev one_merchant : MerchantPool
one_merchant = record { merchants_by_shard = (0, "bob") ∷ []; default_merchant = "bob" }

-- A page costs 1, and 2 for a caller with no score.
abbrev settings : Settings
settings = record {
  pricing_engine = record (default_engine one_merchant) {
    base_toll_micro_usdc = 1;
    per_token_num = 0;
  };
  cache_ttl_ms = 1000;
  origin_url = "https://origin";
  network = "multiversx:D";
  token_identifier = "EGLD";
}

-- Any header stands for the sample payment; an origin answers with the URL.
abbrev ports : Ports
ports = record {
  shard_of = λ a. ok 0;
  get_agent_score = none;
  give_feedback = λ f. ok "given";
  from_base64 = λ s. s;
  parse_payload = λ s. ok (record { payload = direct paid; accepted = page_price });
  fetch_origin = λ url. ok url;
  extract = λ html. (html, 7);
  etag_of = λ s. "tag";
}

abbrev crawl : PageRequest
crawl = record {
  original_url = "/page";
  is_bot = true;
  is_spoofed = false;
  forwarded_ip = "1.1.1.1";
  socket_ip = "1.1.1.1";
  payment_signature = some "{}";
  x_payment_signature = none;
  payer_address = some "alice";
  agent_nonce = none;
  if_none_match = none;
  random_hash = "f00d";
}

abbrev opened : Tollbooth (State String String ℕ)
opened = record { markdown_cache = []; abuse_reporter = none; facilitator = start }

run_tollbooth : Unit {0}
unfolding run_settler get_page bot_page on_header on_verdict paid_page answer_page settle_page
    after_failure load_page decode_header page_requirements toll_for reputation_score calculate_toll
    raw_cost final_cost round_div get_merchant_address_for_user get_merchant_address_for_shard
    get_shard_of_address verdict_of receipt_of services record_failure
run_tollbooth = tt

abbrev first_page : ServedPage
first_page = record {
  markdown = "https://origin/page";
  etag = "tag";
  is_cache_hit = false;
  receipt = "0xabc";
  tokens = 7;
  tier = probe;
}

pays :
    (get_page settings ports (services settling (some answering) "r1") true 99000 crawl opened).0
    ≡ served first_page
unfolding run_tollbooth
pays = refl

get_page-PaysToll_example :
    (false ≡ false)
    × (true ≡ true)
    × PaysToll settings ports (services settling (some answering) "r1") true 99000 crawl start
get_page-PaysToll_example =
    get_page-PaysToll settings ports (services settling (some answering) "r1") true 99000 crawl
      opened (ap gives_page pays)

get_page-ServesEntry_example :
    ServesEntry settings ports 99000
      (target settings ports crawl)
      first_page
      (get_page settings ports
        (services settling (some answering) "r1")
        true
        99000
        crawl
        opened).1.markdown_cache
get_page-ServesEntry_example =
    get_page-ServesEntry settings ports (services settling (some answering) "r1") true 99000 crawl
      opened first_page pays

abbrev unreachable : Config String String ℕ
unreachable = record settling { send_transaction = λ t. err "503" }

-- The network takes no transaction, and the page is served all the same.
get_page-unreceipted_example :
    unreceipted
      (get_page settings ports
        (services unreachable (some answering) "r1")
        true
        99000
        crawl
        opened).0
    ≡ unreceipted
        (get_page settings ports
          (services settling (some answering) "r1")
          true
          99000
          crawl
          opened).0
unfolding services
get_page-unreceipted_example =
    get_page-unreceipted settings ports (services unreachable (some answering) "r1")
      (services settling (some answering) "r1") true true 99000 crawl opened (λ payment s. refl)

calculate_toll_mono_example :
    (1
      ≤ (calculate_toll ports.shard_of settings.pricing_engine 100 (some (pos 95)) none).micro_usdc)
    × ((calculate_toll ports.shard_of settings.pricing_engine 100 (some (pos 95)) none).micro_usdc
        ≤ (calculate_toll ports.shard_of settings.pricing_engine 1250 none none).micro_usdc)
calculate_toll_mono_example =
    calculate_toll_mono ports.shard_of settings.pricing_engine 100 1250 none (some (pos 95)) none
      none (omega arith) (omega arith) tt

abbrev flood : List ℕ
flood = 10 ∷ 20 ∷ 30 ∷ 40 ∷ 50 ∷ 60 ∷ []

none_pending : IsOpen 10 default_reporter (failure_key "1.1.1.1" (some 7))
unfolding get
none_pending = (omega arith, λ entry e. cc)

within_a_minute : All (λ now. (10 ≤ now) × (now ≤ 10 + default_reporter.window_ms)) flood
within_a_minute = ground arith

record_all-reports_example :
    let (given, after) = record_all "1.1.1.1" (some 7) flood default_reporter in
    (given * 5 + counted (get (failure_key "1.1.1.1" (some 7)) after.failures)
      ≡ counted (get {V = FailureEntry} (failure_key "1.1.1.1" (some 7)) []) + 6)
    × (counted (get (failure_key "1.1.1.1" (some 7)) after.failures) < 5)
record_all-reports_example =
    record_all-reports 10 "1.1.1.1" 7 flood default_reporter (omega arith) within_a_minute
      none_pending
