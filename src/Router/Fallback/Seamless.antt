-- ===== src/Router/Fallback/Seamless.antt =====
-- The stream of src/router/fallback_dispatcher.ts over providers that agree on a text: it is the text,
-- with nothing left out or sent twice.
use blockrun_multiversx_plat.Base.{
  ℕ, ◌≤◌, ◌≡◌, refl, sym, ap, ◌∙◌, subst, ◌⊎◌, inl, inr, true, false, none, List, [], ◌∷◌, ◌++◌,
  append_assoc, append-nil, arith, ltb, ℕ_key, text_key, ltb→lt, Bool-cases,
}
use blockrun_multiversx_plat.Base.Lists.{length, drop, length-append}
use blockrun_multiversx_plat.Base.Text.{starts_with, units_key}
use blockrun_multiversx_plat.Router.Fallback.Defs.{
  ProviderStream, Merge, get_common_prefix_length, yielded, overtake, feed, feed_all, flush,
}

abbrev pub joined : List (List ℕ) → List ℕ
joined [] = []
joined (c ∷ cs) = c ++ joined cs

pub joined-append : (xs ys : List (List ℕ)) → joined (xs ++ ys) ≡ joined xs ++ joined ys
joined-append [] ys = refl
joined-append (x ∷ xs) ys =
    ap (λ t. x ++ t) (joined-append xs ys) ∙ sym (append_assoc x (joined xs) (joined ys))

joined-yielded : (s : List ℕ) → joined (yielded s) ≡ s
joined-yielded [] = refl
joined-yielded (c ∷ s) = append-nil (c ∷ s)

-- A beginning of a text.
abbrev pub IsPrefix : List ℕ → List ℕ → Type 0
IsPrefix s t = (r : List ℕ) × (s ++ r ≡ t)

tails : (x y : ℕ) (s t : List ℕ) → x ∷ s ≡ y ∷ t → (x ≡ y) × (s ≡ t)
tails x y s t e = (cc, cc)

-- Of two beginnings of a text the shorter begins the longer.
prefix-starts :
    (a b t : List ℕ)
    → IsPrefix a t
    → IsPrefix b t
    → length a ≤ length b
    → (starts_with b a ≡ true) × (a ++ drop (length a) b ≡ b)
prefix-starts [] [] t p q h = (refl, refl)
prefix-starts [] (y ∷ b) t p q h = (refl, refl)
prefix-starts (x ∷ a) [] t p q h = absurd (omega (arith, h))
prefix-starts (x ∷ a) (y ∷ b) [] (r, e) q h = cc
prefix-starts (x ∷ a) (y ∷ b) (z ∷ t) (r, e) (r', e') h =
    let (xz, at) = tails x z (a ++ r) t e in
    let (yz, bt) = tails y z (b ++ r') t e' in
    let (starts, rest) = prefix-starts a b t (r, at) (r', bt) (omega (arith, h)) in
    let same : x ≡ y = xz ∙ sym yz in
    (
      ground (arith, same, starts),
      ap (λ u. u ∷ (a ++ drop (length a) b)) same ∙ ap (λ s. y ∷ s) rest,
    )

-- The shorter one is all that they have in common.
prefix-overlap :
    (a b t : List ℕ)
    → IsPrefix a t
    → IsPrefix b t
    → length b ≤ length a
    → drop (get_common_prefix_length a b) b ≡ []
prefix-overlap [] [] t p q h = refl
prefix-overlap (x ∷ a) [] t p q h = refl
prefix-overlap [] (y ∷ b) t p q h = absurd (omega (arith, h))
prefix-overlap (x ∷ a) (y ∷ b) [] (r, e) q h = cc
prefix-overlap (x ∷ a) (y ∷ b) (z ∷ t) (r, e) (r', e') h =
    let (xz, at) = tails x z (a ++ r) t e in
    let (yz, bt) = tails y z (b ++ r') t e' in
    let rest = prefix-overlap a b t (r, at) (r', bt) (omega (arith, h)) in
    let same : x ≡ y = xz ∙ sym yz in ground (arith, same, rest)

prefix_whole : (a t : List ℕ) → IsPrefix a t → length t ≤ length a → a ≡ t
prefix_whole a t ([], e) h = sym (append-nil a) ∙ e
prefix_whole a t (x ∷ r, e) h =
    absurd (let l = ap length e in let k = length-append a (x ∷ r) in omega (arith, l, k, h))

-- A stream of a text: it is the text where it is done, and a beginning of it where it fails.
abbrev pub IsStreamOf : List ℕ → ProviderStream → Type 0
IsStreamOf text s = IsPrefix (joined s.chunks) text × (s.failure ≡ none → joined s.chunks ≡ text)

-- What was consumed of the current stream against what was emitted in all.
abbrev pub IsMerged : List ℕ → List ℕ → Merge → Type 0
IsMerged text consumed m =
    IsPrefix m.emitted_text text
    × (((m.prefix_trimmed ≡ true) × (m.emitted_text ≡ consumed))
        ⊎ ((m.prefix_trimmed ≡ false)
            × (m.fallback_accumulated ≡ consumed)
            × (length consumed ≤ length m.emitted_text)))

-- A step that yields exactly what it adds to the emitted text.
abbrev pub Extends : List ℕ → List ℕ → Merge → List (List ℕ) × Merge → Type 0
Extends text consumed m r =
    IsMerged text consumed r.1 × (m.emitted_text ++ joined r.0 ≡ r.1.emitted_text)

overtake-Extends :
    (text seen : List ℕ) (m : Merge)
    → IsPrefix m.emitted_text text
    → IsPrefix seen text
    → length m.emitted_text ≤ length seen
    → Extends text seen m (overtake seen m)
unfolding overtake
overtake-Extends text seen m p q h =
    let (starts, whole) = prefix-starts m.emitted_text seen text p q h in
    let after : Merge = record {
      emitted_text = seen;
      fallback_accumulated = seen;
      prefix_trimmed = true;
    } in
    let same : overtake seen m ≡ (yielded (drop (length m.emitted_text) seen), after) =
      ground (arith, starts) in
    subst (Extends text seen m) (sym same) (
      (q, inl (refl, refl)),
      ap (λ x. m.emitted_text ++ x) (joined-yielded (drop (length m.emitted_text) seen)) ∙ whole,
    )

feed-Extends :
    (text consumed chunk : List ℕ) (m : Merge)
    → IsMerged text consumed m
    → IsPrefix (consumed ++ chunk) text
    → Extends text (consumed ++ chunk) m (feed chunk m)
unfolding feed
feed-Extends text consumed chunk m (p, inl (trimmed, same)) q =
    let after : Merge = record m { emitted_text = m.emitted_text ++ chunk } in
    let step : feed chunk m ≡ (chunk ∷ [], after) = ground (arith, trimmed) in
    let grown = ap (λ x. x ++ chunk) same in
    subst (Extends text (consumed ++ chunk) m) (sym step) (
      (subst (λ x. IsPrefix x text) (sym grown) q, inl (trimmed, grown)),
      ap (λ x. m.emitted_text ++ x) (append-nil chunk),
    )
feed-Extends text consumed chunk m (p, inr (held, same, short)) q =
    let seen = m.fallback_accumulated ++ chunk in
    let grown : seen ≡ consumed ++ chunk = ap (λ x. x ++ chunk) same in
    elim (Bool-cases (ltb (length m.emitted_text) (length seen))) [
      | inl longer ↦
          let step : feed chunk m ≡ overtake seen m = ground (arith, held, longer) in
          let h = ltb→lt _ _ longer in
          subst (λ x. Extends text x m (feed chunk m)) grown
            (subst (Extends text seen m) (sym step) (
              overtake-Extends text seen m p (subst (λ x. IsPrefix x text) (sym grown) q)
                (omega (arith, h))))
      | inr within ↦
          let after : Merge = record m { fallback_accumulated = seen } in
          let step : feed chunk m ≡ ([], after) = ground (arith, held, within) in
          let bound : length (consumed ++ chunk) ≤ length m.emitted_text =
            subst (λ x. length x ≤ length m.emitted_text) grown (ground (arith, within)) in
          subst (Extends text (consumed ++ chunk) m) (sym step)
            ((p, inr (held, grown, bound)), append-nil m.emitted_text)
    ]

pub prefix-append : (a b t : List ℕ) → IsPrefix (a ++ b) t → IsPrefix a t
prefix-append a b t (r, e) = (b ++ r, sym (append_assoc a b r) ∙ e)

pub feed_all-Extends :
    (text consumed : List ℕ) (cs : List (List ℕ)) (m : Merge)
    → IsMerged text consumed m
    → IsPrefix (consumed ++ joined cs) text
    → Extends text (consumed ++ joined cs) m (feed_all cs m)
unfolding feed_all
feed_all-Extends text consumed [] m h q =
    (subst (λ x. IsMerged text x m) (sym (append-nil consumed)) h, append-nil m.emitted_text)
feed_all-Extends text consumed (c ∷ cs) m h q =
    let assoc = append_assoc consumed c (joined cs) in
    let q' = subst (λ x. IsPrefix x text) (sym assoc) q in
    let (merged, grown) =
      feed-Extends text consumed c m h (prefix-append (consumed ++ c) (joined cs) text q') in
    let (merged', grown') = feed_all-Extends text (consumed ++ c) cs (feed c m).1 merged q' in
    (
      subst (λ x. IsMerged text x (feed_all cs (feed c m).1).1) assoc merged',
      ap (λ x. m.emitted_text ++ x) (joined-append (feed c m).0 (feed_all cs (feed c m).1).0)
          ∙ sym (
              append_assoc m.emitted_text (joined (feed c m).0)
                (joined (feed_all cs (feed c m).1).0))
          ∙ ap (λ x. x ++ joined (feed_all cs (feed c m).1).0) grown
          ∙ grown',
    )

-- At the end of a stream that is done, everything has been emitted and nothing is left to flush.
pub flush-whole :
    (text : List ℕ) (m : Merge) → IsMerged text text m → (m.emitted_text ≡ text) × (flush m ≡ [])
unfolding flush
flush-whole text m (p, inl (trimmed, same)) = (same, ground (arith, trimmed))
flush-whole text m (p, inr (held, same, short)) =
    let whole = prefix_whole m.emitted_text text p short in
    let tail =
      prefix-overlap m.emitted_text m.fallback_accumulated text p ([], append-nil _ ∙ same)
        (subst (λ x. length x ≤ length m.emitted_text) (sym same) short) in
    (whole, ground (arith, held, tail))
