-- ===== src/Router/Fallback/Whole.antt =====
-- What a client of src/router/fallback_dispatcher.ts receives, from providers that agree on a text.
use blockrun_multiversx_plat.Base.{
  ℕ, String, ◌≡◌, refl, sym, ap, ◌∙◌, subst, inl, inr, Bool, true, false, not, ◌&&◌, Option, none,
  some, List, [], ◌∷◌, ◌++◌, append_assoc, append-nil, arith, ltb, ℕ_key, text_key, Bool-cases,
  Option-cases,
}
use blockrun_multiversx_plat.Base.Thrown.{Thrown, ok, err}
use blockrun_multiversx_plat.Base.Lists.{length, any, All, list_cases}
use blockrun_multiversx_plat.Base.Text.{units_key}
use blockrun_multiversx_plat.Router.Fallback.Defs.{
  ProviderStream, Attempt, Merge, feed_all, flush, restarted, merge_streams, Dispatched, streams_of,
  stream_from, dispatch_from, dispatch,
}
use blockrun_multiversx_plat.Router.Fallback.Seamless.{
  joined, joined-append, IsPrefix, IsStreamOf, IsMerged, prefix-append, feed_all-Extends,
  flush-whole,
}

-- What was sent and then came makes up the text where no error ends it, and a beginning of it always.
abbrev pub IsWhole : List ℕ → List ℕ → List (List ℕ) × Option String → Type 0
IsWhole text sent r = IsPrefix (sent ++ joined r.0) text × (r.1 ≡ none → sent ++ joined r.0 ≡ text)

done-IsWhole :
    (text : List ℕ) (m m' : Merge) (out : List (List ℕ))
    → IsMerged text text m'
    → m.emitted_text ++ joined out ≡ m'.emitted_text
    → IsWhole text m.emitted_text (out ++ flush m', none)
done-IsWhole text m m' out merged grown =
    let (whole, nothing) = flush-whole text m' merged in
    let sent : m.emitted_text ++ joined (out ++ flush m') ≡ text =
      ap (λ x. m.emitted_text ++ joined (out ++ x)) nothing
      ∙ ap (λ x. m.emitted_text ++ joined x) (append-nil out)
      ∙ grown
      ∙ whole in
    (([], append-nil _ ∙ sent), λ e. sent)

failed-IsWhole :
    (text : List ℕ) (m m' : Merge) (out : List (List ℕ)) (r : List (List ℕ) × Option String)
    → m.emitted_text ++ joined out ≡ m'.emitted_text
    → IsWhole text m'.emitted_text r
    → IsWhole text m.emitted_text (out ++ r.0, r.1)
failed-IsWhole text m m' out r grown (p, whole) =
    let sent : m.emitted_text ++ joined (out ++ r.0) ≡ m'.emitted_text ++ joined r.0 =
      ap (λ x. m.emitted_text ++ x) (joined-append out r.0)
      ∙ sym (append_assoc m.emitted_text (joined out) (joined r.0))
      ∙ ap (λ x. x ++ joined r.0) grown in
    (subst (λ x. IsPrefix x text) (sym sent) p, λ e. sent ∙ whole e)

merge_streams-IsWhole :
    (text consumed : List ℕ) (rest : List ProviderStream) (s : ProviderStream) (m : Merge)
    → All (IsStreamOf text) rest
    → IsMerged text consumed m
    → IsPrefix (consumed ++ joined s.chunks) text
    → (s.failure ≡ none → consumed ++ joined s.chunks ≡ text)
    → IsWhole text m.emitted_text (merge_streams rest s m)
unfolding merge_streams
merge_streams-IsWhole text consumed [] s m others merged p full =
    let (merged', grown) = feed_all-Extends text consumed s.chunks m merged p in
    let (out, m') = feed_all s.chunks m in
    elim (Option-cases s.failure) [
      | inl e ↦
          let same : merge_streams [] s m ≡ (out ++ flush m', none) = ground (arith, e) in
          subst (IsWhole text m.emitted_text) (sym same)
            (done-IsWhole text m m' out (subst (λ x. IsMerged text x m') (full e) merged') grown)
      | inr (message, e) ↦
          let same : merge_streams [] s m ≡ (out, some message) = ground (arith, e) in
          subst (IsWhole text m.emitted_text) (sym same)
            (subst (λ x. IsPrefix x text) (sym grown) merged'.0, λ ended. cc)
    ]
merge_streams-IsWhole text consumed (next ∷ rest) s m others merged p full =
    let (merged', grown) = feed_all-Extends text consumed s.chunks m merged p in
    let (out, m') = feed_all s.chunks m in
    let later : IsWhole text m'.emitted_text (merge_streams rest next (restarted m')) =
      merge_streams-IsWhole text [] rest next (restarted m') others.1
        (merged'.0, inr (refl, refl, omega arith)) others.0.0 others.0.1 in
    let r = merge_streams rest next (restarted m') in
    elim (Option-cases s.failure) [
      | inl e ↦
          let same : merge_streams (next ∷ rest) s m ≡ (out ++ flush m', none) =
            ground (arith, e) in
          subst (IsWhole text m.emitted_text) (sym same)
            (done-IsWhole text m m' out (subst (λ x. IsMerged text x m') (full e) merged') grown)
      | inr (message, e) ↦
          let same : merge_streams (next ∷ rest) s m ≡ (out ++ r.0, r.1) = ground (arith, e) in
          subst (IsWhole text m.emitted_text) (sym same)
            (failed-IsWhole text m m' out r grown later)
    ]

abbrev pub AllStreamsOf : List ℕ → List Attempt → Type 0
AllStreamsOf text others = All (IsStreamOf text) (streams_of others)

stream_from-IsWhole :
    (text first : List ℕ) (others : List Attempt) (s : ProviderStream)
    → AllStreamsOf text others
    → IsStreamOf text (record s { chunks = first ∷ s.chunks })
    → IsWhole text [] (stream_from others first s)
unfolding stream_from
stream_from-IsWhole text first others s agree (p, full) =
    merge_streams-IsWhole text first (streams_of others) s _ agree
      (prefix-append first (joined s.chunks) text p, inl (refl, refl)) p full

abbrev pub DispatchesWhole : List ℕ → Thrown Dispatched → Type 0
DispatchesWhole text (err m) = Unit
DispatchesWhole text (ok d) = IsWhole text [] (d.yields, d.ending)

abbrev pub dispatched : Bool → Attempt → List Attempt → List ℕ → List (List ℕ) → Dispatched
dispatched is_fallback a others first chunks =
    let r = stream_from others first (record { chunks = chunks; failure = a.stream.failure }) in
    record { provider_id = a.id; fallback_occurred = is_fallback; yields = r.0; ending = r.1 }

dispatch_from-first :
    (is_fallback : Bool) (last : Option String) (a : Attempt) (others : List Attempt)
    (first : List ℕ) (chunks : List (List ℕ))
    → a.is_late ≡ false
    → a.stream.chunks ≡ first ∷ chunks
    → dispatch_from is_fallback last (a ∷ others)
      ≡ ok (dispatched is_fallback a others first chunks)
unfolding dispatch_from
dispatch_from-first is_fallback last a others first chunks in_time e = ground (arith, in_time, e)

-- A provider whose first chunk comes in time.
abbrev pub answers : Attempt → Bool
answers a = not a.is_late && ltb 0 (length a.stream.chunks)

dispatch_from-returns :
    (is_fallback : Bool) (last : Option String) (attempts : List Attempt)
    → any answers attempts ≡ true
    → (d : Dispatched) × (dispatch_from is_fallback last attempts ≡ ok d)
unfolding dispatch_from
dispatch_from-returns is_fallback last [] h = cc
dispatch_from-returns is_fallback last (a ∷ others) h = elim (Bool-cases a.is_late) [
  | inl late ↦
      let (d, e) =
        dispatch_from-returns true (some "TTFT timeout") others (ground (arith, h, late)) in
      (d, ground (arith, late, e))
  | inr in_time ↦ elim (list_cases a.stream.chunks) [
    | inr (first, chunks, e) ↦ (
      dispatched is_fallback a others first chunks,
      dispatch_from-first is_fallback last a others first chunks in_time e,
    )
    | inl e ↦ elim (Option-cases a.stream.failure) [
      | inl f ↦
          let (d, k) = dispatch_from-returns true last others (ground (arith, h, in_time, e)) in
          (d, ground (arith, in_time, e, f, k))
      | inr (m, f) ↦
          let (d, k) = dispatch_from-returns true (some m) others (ground (arith, h, in_time, e)) in
          (d, ground (arith, in_time, e, f, k))
    ]
  ]
]

dispatch_from-whole :
    (text : List ℕ) (is_fallback : Bool) (last : Option String) (attempts : List Attempt)
    → AllStreamsOf text attempts
    → DispatchesWhole text (dispatch_from is_fallback last attempts)
unfolding dispatch_from
dispatch_from-whole text is_fallback last [] agree = tt
dispatch_from-whole text is_fallback last (a ∷ others) agree =
    let after : (e : Option String) → DispatchesWhole text (dispatch_from true e others) =
      λ e. dispatch_from-whole text true e others agree.1 in
    elim (Bool-cases a.is_late) [
      | inl late ↦
          let same : dispatch_from is_fallback last (a ∷ others)
              ≡ dispatch_from true (some "TTFT timeout") others =
            ground (arith, late) in
          subst (DispatchesWhole text) (sym same) (after (some "TTFT timeout"))
      | inr in_time ↦ elim (list_cases a.stream.chunks) [
        | inl e ↦ elim (Option-cases a.stream.failure) [
          | inl f ↦
              let same : dispatch_from is_fallback last (a ∷ others)
                  ≡ dispatch_from true last others =
                ground (arith, in_time, e, f) in
              subst (DispatchesWhole text) (sym same) (after last)
          | inr (m, f) ↦
              let same : dispatch_from is_fallback last (a ∷ others)
                  ≡ dispatch_from true (some m) others =
                ground (arith, in_time, e, f) in
              subst (DispatchesWhole text) (sym same) (after (some m))
        ]
        | inr (first, chunks, e) ↦
            let s : ProviderStream = record { chunks = chunks; failure = a.stream.failure } in
            let agree' : IsStreamOf text (record s { chunks = first ∷ chunks }) =
              subst (λ x. IsPrefix (joined x) text × (a.stream.failure ≡ none → joined x ≡ text)) e
                agree.0 in
            subst (DispatchesWhole text)
              (sym (dispatch_from-first is_fallback last a others first chunks in_time e))
              (stream_from-IsWhole text first others s agree.1 agree')
      ]
    ]

-- Providers that agree on a text (the stream of one that is done is the text, and of one that fails a
-- beginning of it), one of which brings its first chunk in time: the dispatch returns a stream, whose
-- chunks together are a beginning of the text, and the whole text where the stream ends without an
-- error, however often it went on with the next provider.
pub dispatch-IsWhole :
    (text : List ℕ) (attempts : List Attempt)
    → AllStreamsOf text attempts
    → any answers attempts ≡ true
    → (d : Dispatched) × (dispatch attempts ≡ ok d)
      × IsPrefix (joined d.yields) text
      × (d.ending ≡ none → joined d.yields ≡ text)
unfolding dispatch
dispatch-IsWhole text [] agree h = cc
dispatch-IsWhole text (a ∷ others) agree h =
    let (d, e) = dispatch_from-returns false none (a ∷ others) h in
    let (prefix, whole) =
      subst (DispatchesWhole text) e (dispatch_from-whole text false none (a ∷ others) agree) in
    (d, e, prefix, whole)
