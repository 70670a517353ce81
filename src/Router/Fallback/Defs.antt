-- ===== src/Router/Fallback/Defs.antt =====
-- src/router/fallback_dispatcher.ts: the choice of the first provider that answers in time, and the
-- stream that goes on with the next provider when one fails. Texts are lists of code units. Each
-- provider's executor is called once at most in a dispatch, so that a provider stands for its stream.
use blockrun_multiversx_plat.Base.{
  ℕ, suc, String, Bool, true, false, Option, none, some, List, [], ◌∷◌, ◌++◌, ltb, same_ℕ,
  if◌then◌else◌, ℕ_key, text_key, or_else,
}
use blockrun_multiversx_plat.Base.Thrown.{Thrown, ok, err}
use blockrun_multiversx_plat.Base.Lists.{length, drop}
use blockrun_multiversx_plat.Base.Text.{starts_with, units_key}

-- What a provider streams: its chunks, and how the stream ends, with the message of an error or done.
pub record ProviderStream : Type 0 where
  pub chunks : List (List ℕ)
  pub failure : Option String

-- A provider, and whether its first chunk comes after the timeout.
pub record Attempt : Type 0 where
  pub id : String
  pub is_late : Bool
  pub stream : ProviderStream

pub record Merge : Type 0 where
  pub emitted_text : List ℕ
  pub fallback_accumulated : List ℕ
  pub prefix_trimmed : Bool

abbrev pub get_common_prefix_length : List ℕ → List ℕ → ℕ
get_common_prefix_length [] b = 0
get_common_prefix_length (x ∷ a) [] = 0
get_common_prefix_length (x ∷ a) (y ∷ b) =
    let rest = get_common_prefix_length a b in if same_ℕ x y then suc rest else 0

-- `if (delta.length > 0) yield delta`
abbrev pub yielded : List ℕ → List (List ℕ)
yielded [] = []
yielded (c ∷ s) = (c ∷ s) ∷ []

-- A text of the fallback that is longer than what was emitted.
unfoldable pub overtake : List ℕ → Merge → List (List ℕ) × Merge
overtake text m =
    let tail = drop (get_common_prefix_length m.emitted_text text) text in
    if starts_with text m.emitted_text
    then (
      yielded (drop (length m.emitted_text) text),
      record { emitted_text = text; fallback_accumulated = text; prefix_trimmed = true },
    )
    else (
      yielded tail,
      record {
        emitted_text = m.emitted_text ++ tail;
        fallback_accumulated = text;
        prefix_trimmed = true;
      },
    )

-- One chunk: what is yielded for it, and the state after it.
unfoldable pub feed : List ℕ → Merge → List (List ℕ) × Merge
feed chunk m =
    let text = m.fallback_accumulated ++ chunk in
    if m.prefix_trimmed
    then (chunk ∷ [], record m { emitted_text = m.emitted_text ++ chunk })
    else (if ltb (length m.emitted_text) (length text)
        then overtake text m
        else ([], record m { fallback_accumulated = text }))

unfoldable pub feed_all : List (List ℕ) → Merge → List (List ℕ) × Merge
feed_all [] m = ([], m)
feed_all (c ∷ cs) m =
    let (out, m') = feed c m in let (more, m'') = feed_all cs m' in (out ++ more, m'')

-- A stream that ends while its text is still held back.
unfoldable pub flush : Merge → List (List ℕ)
flush m =
    let tail =
      drop (get_common_prefix_length m.emitted_text m.fallback_accumulated)
        m.fallback_accumulated in
    if m.prefix_trimmed then [] else yielded tail

abbrev pub restarted : Merge → Merge
restarted m = record {
  emitted_text = m.emitted_text;
  fallback_accumulated = [];
  prefix_trimmed = false;
}

-- `wrappedBufferedStream` for the current stream and the providers that are left: what it yields, and
-- the error that it ends with, if any.
unfoldable pub merge_streams :
    List ProviderStream → ProviderStream → Merge → List (List ℕ) × Option String
merge_streams [] s m =
    let (out, m') = feed_all s.chunks m in
    elim s.failure [ none ↦ (out ++ flush m', none) | some e ↦ (out, some e) ]
merge_streams (next ∷ rest) s m =
    let (out, m') = feed_all s.chunks m in
    let (more, ending) = merge_streams rest next (restarted m') in
    elim s.failure [ none ↦ (out ++ flush m', none) | some e ↦ (out ++ more, ending) ]

pub record Dispatched : Type 0 where
  pub provider_id : String
  pub fallback_occurred : Bool
  pub yields : List (List ℕ)
  pub ending : Option String

abbrev pub streams_of : List Attempt → List ProviderStream
streams_of [] = []
streams_of (a ∷ others) = a.stream ∷ streams_of others

-- The stream of a provider whose first chunk came in time.
unfoldable pub stream_from : List Attempt → List ℕ → ProviderStream → List (List ℕ) × Option String
stream_from rest first s =
    let (more, ending) =
      merge_streams (streams_of rest) s
        (record { emitted_text = first; fallback_accumulated = []; prefix_trimmed = true }) in
    (first ∷ more, ending)

-- The providers that are left to try, after a last error.
unfoldable pub dispatch_from : Bool → Option String → List Attempt → Thrown Dispatched
dispatch_from is_fallback last [] = err (or_else last "All providers in fallback chain failed")
dispatch_from is_fallback last (a ∷ others) =
    let after : Option String → Thrown Dispatched = λ e. dispatch_from true e others in
    if a.is_late then after (some "TTFT timeout") else elim a.stream.chunks [
      | [] ↦ elim a.stream.failure [ none ↦ after last | some e ↦ after (some e) ]
      | first ∷ chunks ↦
          let (yields, ending) =
            stream_from others first (record { chunks = chunks; failure = a.stream.failure }) in
          ok (record {
            provider_id = a.id;
            fallback_occurred = is_fallback;
            yields = yields;
            ending = ending;
          })
    ]

unfoldable pub dispatch : List Attempt → Thrown Dispatched
dispatch [] = err "No available providers in routing matrix"
dispatch (a ∷ others) = dispatch_from false none (a ∷ others)
