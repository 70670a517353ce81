-- ===== src/Router/Fallback/Tests.antt =====
-- Runs of the dispatcher, and its theorem at a provider that fails in the middle.
use blockrun_multiversx_plat.Base.{
  ◌≡◌, refl, true, false, none, some, List, [], ◌∷◌, ℕ_key, text_key,
}
use blockrun_multiversx_plat.Base.Thrown.{ok}
use blockrun_multiversx_plat.Base.Text.{units, units_key}
use blockrun_multiversx_plat.Router.Fallback.Defs.{
  Attempt, overtake, feed, feed_all, flush, merge_streams, Dispatched, stream_from, dispatch_from,
  dispatch,
}
use blockrun_multiversx_plat.Router.Fallback.Seamless.{joined, IsPrefix}
use blockrun_multiversx_plat.Router.Fallback.Whole.{AllStreamsOf, dispatch-IsWhole}

-- One provider is late, one breaks off, and the last has the whole text.
abbrev cascade : List Attempt
cascade =
    record {
      id = "slow";
      is_late = true;
      stream = record { chunks = []; failure = some "aborted" };
    }
    ∷ record {
      id = "broken";
      is_late = false;
      stream = record { chunks = units "He" ∷ units "l" ∷ []; failure = some "reset" };
    }
    ∷ record {
      id = "good";
      is_late = false;
      stream = record { chunks = units "H" ∷ units "ell" ∷ units "o" ∷ []; failure = none };
    }
    ∷ []

run_dispatch : Unit {0}
unfolding dispatch dispatch_from stream_from merge_streams feed_all feed overtake flush
run_dispatch = tt

seamless :
    dispatch cascade
    ≡ ok (record {
      provider_id = "broken";
      fallback_occurred = true;
      yields = units "He" ∷ units "l" ∷ units "l" ∷ units "o" ∷ [];
      ending = none;
    })
unfolding run_dispatch
seamless = refl

agrees : AllStreamsOf (units "Hello") cascade
agrees = (
  ((units "Hello", refl), λ e. cc),
  (((units "lo", refl), λ e. cc), ((([], refl), λ e. refl), tt)),
)

dispatch-IsWhole_example :
    (d : Dispatched) × (dispatch cascade ≡ ok d)
    × IsPrefix (joined d.yields) (units "Hello")
    × (d.ending ≡ none → joined d.yields ≡ units "Hello")
dispatch-IsWhole_example = dispatch-IsWhole (units "Hello") cascade agrees refl
