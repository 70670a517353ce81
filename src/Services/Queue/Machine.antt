-- ===== src/Services/Queue/Machine.antt =====
-- src/services/settlement_queue.ts: every order of a worker's events.
use blockrun_multiversx_plat.Base.{
  ℕ, ◌+◌, ◌-◌, ◌≤◌, String, ◌≡◌, refl, sym, ◌∙◌, subst, inl, inr, true, Option, none, some, [], ◌∷◌,
  ◌++◌, arith, if◌then◌else◌, ℕ_key, text_key, is_some, Option-cases, if_both,
}
use blockrun_multiversx_plat.Base.Thrown.{Thrown}
use blockrun_multiversx_plat.Base.Lists.{length, length-append, list_cases}
use blockrun_multiversx_plat.Base.Text.{units_key}
use blockrun_multiversx_plat.Domain.{Request, SettleResponse}
use blockrun_multiversx_plat.Services.Queue.Defs.{
  successful, Worker, new_worker, drained, process_next, enqueue, finish, drain, clear,
}

-- A request that arrives, a result that comes back while a request is in flight, a caller that waits
-- for the worker to drain.
pub data Step : Worker → Worker → Type 0 where
  arrives : (q : Request) (w : Worker) → Step w (enqueue q w)
  returns :
      (r : Thrown SettleResponse) (w : Worker) → is_some w.in_flight ≡ true → Step w (finish r w)
  waits : (w : Worker) → Step w (drain w)

-- The steps with those that clear the queue.
pub data AnyStep : Worker → Worker → Type 0 where
  steps : {w v : Worker} → Step w v → AnyStep w v
  clears : (w : Worker) → AnyStep w (clear w)

pub data Reaches (R : Worker → Worker → Type 0) : Worker → Worker → Type 0 where
  here : (w : Worker) → Reaches R w w
  later : {w u v : Worker} → Reaches R w u → R u v → Reaches R w v

abbrev pub busy : Worker → ℕ
busy w = elim w.in_flight [ none ↦ 0 | some q ↦ 1 ]

-- The count of pending requests is what is queued and in flight; an idle worker has nothing queued.
abbrev pub IsCounted : Worker → Type 0
IsCounted w = (w.pending_count ≡ length w.queue + busy w) × (w.in_flight ≡ none → w.queue ≡ [])

-- What holds of it once the queue may be cleared under a request in flight.
abbrev pub IsUndercounted : Worker → Type 0
IsUndercounted w = (w.pending_count ≤ length w.queue + busy w) × (w.in_flight ≡ none → w.queue ≡ [])

-- Going on with the next request moves it from the queue into flight.
abbrev pub Moves : Worker → Worker → Type 0
Moves w v =
    (v.pending_count ≡ w.pending_count)
    × (length v.queue + busy v ≡ length w.queue + busy w)
    × (v.in_flight ≡ none → v.queue ≡ [])

drained-Moves : (w : Worker) → (w.in_flight ≡ none → w.queue ≡ []) → Moves w (drained w)
drained-Moves w h = if_both (Moves w) _ _ _ (refl, refl, h) (refl, refl, h)

process_next-Moves : (w : Worker) → Moves w (process_next w)
unfolding process_next
process_next-Moves w = elim (Option-cases w.in_flight) [
  | inr (q, flying) ↦
      let e : process_next w ≡ drained w = ground (arith, flying) in
      subst (Moves w) (sym e) (drained-Moves w λ idle. absurd (cc (flying, idle)))
  | inl idle ↦ elim (list_cases w.queue) [
    | inl empty ↦
        let e : process_next w ≡ drained w = ground (arith, idle, empty) in
        subst (Moves w) (sym e) (drained-Moves w λ i. empty)
    | inr (q, qs, queued) ↦
        let e : process_next w ≡ record w { queue = qs; in_flight = some q } =
          ground (arith, idle, queued) in
        subst (Moves w) (sym e) (refl, ground (arith, idle, queued), λ i. cc)
  ]
]

pub enqueue-Moves :
    (q : Request) (w : Worker)
    → ((enqueue q w).pending_count ≡ w.pending_count + 1)
      × (length (enqueue q w).queue + busy (enqueue q w) ≡ length w.queue + busy w + 1)
      × ((enqueue q w).in_flight ≡ none → (enqueue q w).queue ≡ [])
unfolding enqueue
enqueue-Moves q w =
    let (a, b, c) =
      process_next-Moves
        (record w { pending_count = w.pending_count + 1; queue = w.queue ++ q ∷ [] }) in
    (a, omega (arith, b, length-append w.queue (q ∷ [])), c)

finish-Moves :
    (r : Thrown SettleResponse) (w : Worker)
    → is_some w.in_flight ≡ true
    → ((finish r w).pending_count ≡ w.pending_count - 1)
      × (length (finish r w).queue + busy (finish r w) + 1 ≡ length w.queue + busy w)
      × ((finish r w).in_flight ≡ none → (finish r w).queue ≡ [])
unfolding finish
finish-Moves r w flying =
    let (a, b, c) = process_next-Moves (record w {
      processed_count = if successful r then w.processed_count + 1 else w.processed_count;
      failed_count = if successful r then w.failed_count else w.failed_count + 1;
      pending_count = w.pending_count - 1;
      in_flight = none;
    }) in
    let one : busy w ≡ 1 = ground (arith, flying) in (a, omega (arith, b, one), c)

drain-same :
    (w : Worker)
    → ((drain w).pending_count ≡ w.pending_count)
      × ((drain w).queue ≡ w.queue)
      × ((drain w).in_flight ≡ w.in_flight)
unfolding drain
drain-same w =
    if_both
      (λ (v : Worker).
        (v.pending_count ≡ w.pending_count) × (v.queue ≡ w.queue) × (v.in_flight ≡ w.in_flight))
      _ _ _ (refl, refl, refl) (refl, refl, refl)

Step-IsCounted : {w v : Worker} → Step w v → IsCounted w → IsCounted v
Step-IsCounted (arrives q w) h = let (a, b, c) = enqueue-Moves q w in (omega (arith, a, b, h.0), c)
Step-IsCounted (returns r w flying) h =
    let (a, b, c) = finish-Moves r w flying in (omega (arith, a, b, h.0), c)
Step-IsCounted (waits w) h =
    let (a, b, c) = drain-same w in (ground (arith, a, b, c, h.0), λ e. b ∙ h.1 (sym c ∙ e))

-- From a new worker, without a `clear`, the pending count is exactly what is queued and in flight,
-- and a worker is never idle over a queue that has requests.
pub reachable-IsCounted :
    (shard : ℕ) (relayer : Option String) (w : Worker)
    → Reaches Step (new_worker shard relayer) w
    → IsCounted w
reachable-IsCounted shard relayer w p = reached p (refl, λ e. refl)
  where
    reached : {u v : Worker} → Reaches Step u v → IsCounted u → IsCounted v
    reached (here u) h = h
    reached (later p s) h = Step-IsCounted s (reached p h)

AnyStep-IsUndercounted : {w v : Worker} → AnyStep w v → IsUndercounted w → IsUndercounted v
unfolding clear
AnyStep-IsUndercounted (steps (arrives q w)) h =
    let (a, b, c) = enqueue-Moves q w in (omega (arith, a, b, h.0), c)
AnyStep-IsUndercounted (steps (returns r w flying)) h =
    let (a, b, c) = finish-Moves r w flying in (omega (arith, a, b, h.0), c)
AnyStep-IsUndercounted (steps (waits w)) h =
    let (a, b, c) = drain-same w in (ground (arith, a, b, c, h.0), λ e. b ∙ h.1 (sym c ∙ e))
AnyStep-IsUndercounted (clears w) h = (omega arith, λ e. refl)

-- With `clear` at any time, the pending count never exceeds what is queued and in flight, and a
-- worker is still never idle over a queue that has requests.
pub reachable-IsUndercounted :
    (shard : ℕ) (relayer : Option String) (w : Worker)
    → Reaches AnyStep (new_worker shard relayer) w
    → IsUndercounted w
reachable-IsUndercounted shard relayer w p = reached p (omega arith, λ e. refl)
  where
    reached : {u v : Worker} → Reaches AnyStep u v → IsUndercounted u → IsUndercounted v
    reached (here u) h = h
    reached (later p s) h = AnyStep-IsUndercounted s (reached p h)
