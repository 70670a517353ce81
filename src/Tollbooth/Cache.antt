-- ===== src/Tollbooth/Cache.antt =====
-- The Markdown cache of src/tollbooth/tollbooth_server.ts: what a page is served from.
use blockrun_multiversx_plat.Base.{
  ℕ, ◌-◌, ◌<◌, String, ◌≡◌, refl, sym, ap, ◌∙◌, subst, ◌⊎◌, inl, inr, Bool, true, false, Option,
  none, some, arith, ℕ_key, text_key, or_else, ltb→lt, Bool-cases,
}
use blockrun_multiversx_plat.Base.Dict.{Dict, get, set, get-set_self}
use blockrun_multiversx_plat.Base.Thrown.{Thrown, ok, err, ok_inj}
use blockrun_multiversx_plat.Base.Text.{◌<>◌, truthy_opt, units_key}
use blockrun_multiversx_plat.Domain.{Request}
use blockrun_multiversx_plat.Services.Facilitator.{
  Facilitator, PaymentPayload, Verdict, unanswered, refused, accepted_payment,
}
use blockrun_multiversx_plat.Tollbooth.Pricing.{Tier, TollCalculationResult}
use blockrun_multiversx_plat.Tollbooth.Server.{
  CachedMarkdownEntry, Settings, Ports, PageRequest, ServedPage, forbidden, malformed_header,
  payment_refused, served, Tollbooth, either_header, toll_for, decode_header, new_entry, fetch_page,
  is_fresh, load_from, load_page, is_unchanged, settle_page, answer_page, paid_page, on_verdict,
  on_header, bot_page, get_page,
}
use blockrun_multiversx_plat.Tollbooth.Paid.{gives_page, after_failure-refuses}

served_inj : (p q : ServedPage) → served p ≡ served q → p ≡ q
served_inj p q e = cc

module _ (settings : Settings) (ports : Ports) where
  -- The entry was in the cache and is younger than the time to live, or it was made just now from
  -- what the origin gave.
  abbrev pub IsCurrent : ℕ → String → CachedMarkdownEntry → Bool → Type 0
  IsCurrent now url entry hit =
      ((hit ≡ true) × (now - entry.timestamp < settings.cache_ttl_ms))
      ⊎ ((hit ≡ false)
          × (entry.timestamp ≡ now)
          × (html : String) × (ports.fetch_origin url ≡ ok html)
          × (entry.markdown ≡ (ports.extract html).0))

  fetch_page-IsCurrent :
      (now : ℕ) (url : String) (answer : Thrown String) (cache : Dict String CachedMarkdownEntry)
      (entry : CachedMarkdownEntry) (hit : Bool)
      → ports.fetch_origin url ≡ answer
      → (fetch_page settings ports now url answer cache).0 ≡ ok (entry, hit)
      → (get url (fetch_page settings ports now url answer cache).1 ≡ some entry)
        × IsCurrent now url entry hit
  fetch_page-IsCurrent now url (err m) cache entry hit o h = cc
  fetch_page-IsCurrent now url (ok html) cache entry hit o h =
      let same : (new_entry settings ports now html, false) ≡ (entry, hit) = ok_inj _ _ h in
      let e = ap (λ x. x.0) same in
      let P : CachedMarkdownEntry × Bool → Type 0 = λ x.
        (get url (set url (new_entry settings ports now html) cache) ≡ some x.0)
        × IsCurrent now url x.0 x.1 in
      subst P same (
        get-set_self url (new_entry settings ports now html) cache,
        inr (refl, refl, html, o, refl),
      )

  load_from-IsCurrent :
      (now : ℕ) (url : String) (found : Option CachedMarkdownEntry)
      (cache : Dict String CachedMarkdownEntry) (entry : CachedMarkdownEntry) (hit : Bool)
      → get url cache ≡ found
      → (load_from settings ports now url found cache).0 ≡ ok (entry, hit)
      → (get url (load_from settings ports now url found cache).1 ≡ some entry)
        × IsCurrent now url entry hit
  load_from-IsCurrent now url none cache entry hit g h =
      fetch_page-IsCurrent now url _ cache entry hit refl h
  load_from-IsCurrent now url (some old) cache entry hit g h =
      elim (Bool-cases (is_fresh settings ports now (some old))) [
        | inl young ↦
            let load : load_from settings ports now url (some old) cache ≡ (ok (old, true), cache) =
              ground (arith, young) in
            let same : (old, true) ≡ (entry, hit) = ok_inj _ _ (sym (ap (λ x. x.0) load) ∙ h) in
            let P : CachedMarkdownEntry × Bool → Type 0 = λ x.
              (get url (load_from settings ports now url (some old) cache).1 ≡ some x.0)
              × IsCurrent now url x.0 x.1 in
            subst P same (ap (λ x. get url x.1) load ∙ g, inl (refl, ltb→lt _ _ young))
        | inr stale ↦
            let load : load_from settings ports now url (some old) cache
                ≡ fetch_page settings ports now url (ports.fetch_origin url) cache =
              ground (arith, stale) in
            let (kept, current) =
              fetch_page-IsCurrent now url _ cache entry hit refl (sym (ap (λ x. x.0) load) ∙ h) in
            (ap (λ x. get url x.1) load ∙ kept, current)
      ]

  load_page-IsCurrent :
      (now : ℕ) (url : String) (cache : Dict String CachedMarkdownEntry)
      (entry : CachedMarkdownEntry) (hit : Bool)
      → (load_page settings ports now url cache).0 ≡ ok (entry, hit)
      → (get url (load_page settings ports now url cache).1 ≡ some entry)
        × IsCurrent now url entry hit
  unfolding load_page
  load_page-IsCurrent now url cache entry hit h =
      load_from-IsCurrent now url (get url cache) cache entry hit refl h

  -- The URL that a page is fetched and cached under.
  abbrev pub target : PageRequest → String
  target q = settings.origin_url <> q.original_url

  -- What is served comes from an entry that is in the cache afterwards.
  abbrev pub ServesEntry : ℕ → String → ServedPage → Dict String CachedMarkdownEntry → Type 0
  ServesEntry now url page cache =
      (entry : CachedMarkdownEntry) × (get url cache ≡ some entry)
      × (page.markdown ≡ entry.markdown)
      × (page.etag ≡ entry.etag)
      × IsCurrent now url entry page.is_cache_hit

  module _ {S : Type 0} {Accepted : ℕ → S → Request → Type 0} where
    settle_page-ServesEntry :
        (f : Facilitator S Accepted) (b : Bool) (now : ℕ) (url : String) (q : PageRequest)
        (payment : Request) (tier : Tier) (entry : CachedMarkdownEntry) (hit : Bool)
        (t : Tollbooth S) (page : ServedPage)
        → (get url t.markdown_cache ≡ some entry) × IsCurrent now url entry hit
        → (settle_page settings ports f b now q payment tier (entry, hit) t).0 ≡ served page
        → ServesEntry now url page
            (settle_page settings ports f b now q payment tier (entry, hit) t).1.markdown_cache
    unfolding settle_page
    settle_page-ServesEntry f true now url q payment tier entry hit t page k h =
        let e = served_inj _ page h in
        subst (λ x. ServesEntry now url x t.markdown_cache) e (entry, k.0, refl, refl, k.1)
    settle_page-ServesEntry f false now url q payment tier entry hit t page k h =
        let e = served_inj _ page h in
        subst (λ x. ServesEntry now url x t.markdown_cache) e (entry, k.0, refl, refl, k.1)

    answer_page-ServesEntry :
        (f : Facilitator S Accepted) (b : Bool) (now : ℕ) (url : String) (q : PageRequest)
        (payment : Request) (tier : Tier) (loaded : Thrown (CachedMarkdownEntry × Bool))
        (t : Tollbooth S) (page : ServedPage)
        → ((entry : CachedMarkdownEntry) (hit : Bool)
            → loaded ≡ ok (entry, hit)
            → (get url t.markdown_cache ≡ some entry) × IsCurrent now url entry hit)
        → (answer_page settings ports f b now q payment tier loaded t).0 ≡ served page
        → ServesEntry now url page
            (answer_page settings ports f b now q payment tier loaded t).1.markdown_cache
    unfolding answer_page
    answer_page-ServesEntry f b now url q payment tier (err m) t page k h = cc
    answer_page-ServesEntry f b now url q payment tier (ok (entry, hit)) t page k h =
        elim (Bool-cases (is_unchanged settings ports q.if_none_match entry.etag)) [
          | inl u ↦ absurd (ground (arith, u, h))
          | inr u ↦
              let same : answer_page settings ports f b now q payment tier (ok (entry, hit)) t
                  ≡ settle_page settings ports f b now q payment tier (entry, hit) t =
                ground (arith, u) in
              subst (λ x. ServesEntry now url page x.1.markdown_cache) (sym same)
                (settle_page-ServesEntry f b now url q payment tier entry hit t page
                  (k entry hit refl) (sym (ap (λ x. x.0) same) ∙ h))
        ]

    on_verdict-ServesEntry :
        (f : Facilitator S Accepted) (b : Bool) (now : ℕ) (q : PageRequest) (payment : Request)
        (tier : Tier) (v : Verdict) (t : Tollbooth S) (page : ServedPage)
        → (on_verdict settings ports f b now q payment tier v t).0 ≡ served page
        → ServesEntry now
            (target q)
            page
            (on_verdict settings ports f b now q payment tier v t).1.markdown_cache
    unfolding on_verdict paid_page
    on_verdict-ServesEntry f b now q payment tier (unanswered m) t page h = cc
    on_verdict-ServesEntry f b now q payment tier (refused r) t page h = absurd (
        let e =
          after_failure-refuses settings ports now q.socket_ip q.agent_nonce (payment_refused r) t
            refl in
        let w = ap gives_page h in ground (arith, e, w))
    on_verdict-ServesEntry f b now q payment tier accepted_payment t page h =
        answer_page-ServesEntry f b now (target q) q payment tier _ _ page
          (λ entry hit e. load_page-IsCurrent now (target q) t.markdown_cache entry hit e) h

    on_header-ServesEntry :
        (f : Facilitator S Accepted) (b : Bool) (now : ℕ) (q : PageRequest)
        (toll : TollCalculationResult) (d : Thrown PaymentPayload) (t : Tollbooth S)
        (page : ServedPage)
        → (on_header settings ports f b now q toll d t).0 ≡ served page
        → ServesEntry now
            (target q)
            page
            (on_header settings ports f b now q toll d t).1.markdown_cache
    unfolding on_header
    on_header-ServesEntry f b now q toll (err m) t page h = absurd (
        let e =
          after_failure-refuses settings ports now q.socket_ip q.agent_nonce malformed_header t
            refl in
        let w = ap gives_page h in ground (arith, e, w))
    on_header-ServesEntry f b now q toll (ok p) t page h =
        on_verdict-ServesEntry f b now q _ toll.tier _ _ page h

    -- A page that is served is the one that the cache holds under the page's URL afterwards: an entry
    -- younger than the time to live if the answer says that the cache had it, and one made at this
    -- time out of what the origin gave otherwise.
    pub get_page-ServesEntry :
        (f : Facilitator S Accepted) (b : Bool) (now : ℕ) (q : PageRequest) (t : Tollbooth S)
        (page : ServedPage)
        → (get_page settings ports f b now q t).0 ≡ served page
        → ServesEntry now (target q) page (get_page settings ports f b now q t).1.markdown_cache
    unfolding get_page bot_page
    get_page-ServesEntry f b now q t page h = elim (Bool-cases q.is_spoofed) [
      | inl s ↦ absurd (
          let e = after_failure-refuses settings ports now q.forwarded_ip none forbidden t refl in
          let w = ap gives_page h in ground (arith, e, s, w))
      | inr s ↦ elim (Bool-cases q.is_bot) [
        | inr p ↦ absurd (ground (arith, h, s, p))
        | inl p ↦
            elim (Bool-cases
              (truthy_opt (either_header q.payment_signature q.x_payment_signature))) [
                | inr r ↦ absurd (ground (arith, h, s, p, r))
                | inl r ↦
                    let same : get_page settings ports f b now q t
                        ≡ on_header settings ports f b now q (toll_for settings ports q)
                            (decode_header settings ports (
                              or_else (either_header q.payment_signature q.x_payment_signature) ""))
                            t =
                      ground (arith, s, p, r) in
                    subst (λ x. ServesEntry now (target q) page x.1.markdown_cache) (sym same)
                      (on_header-ServesEntry f b now q _ _ t page (sym (ap (λ x. x.0) same) ∙ h))
              ]
      ]
    ]
