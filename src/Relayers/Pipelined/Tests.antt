-- ===== src/Relayers/Pipelined/Tests.antt =====
-- Runs of the pipelined pool, and its theorems at concrete inputs.
use blockrun_multiversx_plat.Base.{ℕ, ◌≡◌, refl, none, List, [], ◌∷◌, arith, ℕ_key, text_key}
use blockrun_multiversx_plat.Base.Dict.{get, set}
use blockrun_multiversx_plat.Base.Thrown.{ok}
use blockrun_multiversx_plat.Base.Text.{show_ℕ}
use blockrun_multiversx_plat.Relayers.Pool.Defs.{Signers}
use blockrun_multiversx_plat.Relayers.Pipelined.Defs.{
  Tracker, Pipeline, reserve_nonce, confirm_nonce, pad,
}
use blockrun_multiversx_plat.Relayers.Pipelined.Nonces.{
  Call, reserves, confirms, resyncs, IncreasingFrom, next_of, step, given, handed,
  handed-IncreasingFrom,
}
use blockrun_multiversx_plat.Relayers.Pipelined.Padding.{pad_endless}

abbrev one_shard : Signers ℕ
one_shard = record { address_of = λ n. show_ℕ n; shard_of = λ a. ok 0 }

abbrev started : Tracker
started = record { next_nonce = 7; confirmed_nonce = 7; in_flight_count = 0 }

abbrev pipeline : Pipeline ℕ
pipeline = record {
  shard_relayers = (0, 4 ∷ []) ∷ [];
  round_robin_index = [];
  nonce_trackers = ("4", started) ∷ [];
  max_in_flight_per_relayer = 250;
}

abbrev calls : List Call
calls = reserves "4" ∷ confirms "4" 7 ∷ reserves "9" ∷ reserves "4" ∷ []

nonces_of_three : handed pipeline calls "4" ≡ 7 ∷ 8 ∷ []
unfolding handed given step reserve_nonce confirm_nonce get set
nonces_of_three = refl

handed-IncreasingFrom_example :
    IncreasingFrom (next_of pipeline "4") (handed pipeline (resyncs "4" 3 ∷ calls) "4")
handed-IncreasingFrom_example = handed-IncreasingFrom pipeline (resyncs "4" 3 ∷ calls) "4"

pad_endless_example : pad one_shard 1000 pipeline 0 8 ≡ none
unfolding get
pad_endless_example = pad_endless one_shard 1000 pipeline 0 8 (omega arith) (omega arith)
