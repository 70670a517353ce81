-- ===== src/Services/Settler/Tests.antt =====
-- Runs of the settler, and its theorems at a payment that is settled twice.
use blockrun_multiversx_plat.Base.{ℕ, String, ◌≡◌, refl, ◌≢◌, some, [], ℕ_key, text_key}
use blockrun_multiversx_plat.Base.Dict.{get}
use blockrun_multiversx_plat.Base.Thrown.{ok}
use blockrun_multiversx_plat.Base.Lists.{length}
use blockrun_multiversx_plat.Base.Text.{units_key}
use blockrun_multiversx_plat.Domain.{direct, Request}
use blockrun_multiversx_plat.Services.Samples.{chain, answering, asked, paid, offer, relaying}
use blockrun_multiversx_plat.Services.Verifier.Verify.{verify}
use blockrun_multiversx_plat.Services.Verifier.Valid.{Established}
use blockrun_multiversx_plat.Storage.Index.{IsIndexed}
use blockrun_multiversx_plat.Services.Settler.Defs.{State, succeeded}
use blockrun_multiversx_plat.Services.Settler.Samples.{settling, start, run_settler}
use blockrun_multiversx_plat.Services.Settler.Settle.{settle}
use blockrun_multiversx_plat.Services.Settler.Recorded.{Recorded, IsFresh, settle-Recorded}
use blockrun_multiversx_plat.Services.Settler.Once.{idle, onward, settle_once}
use blockrun_multiversx_plat.Services.Settler.Consistent.{settle-IsIndexed}
use blockrun_multiversx_plat.Services.Settler.Sent.{
  SendsVerified, settle-SendsVerified, settle-Established,
}

start-IsIndexed : IsIndexed start.storage
unfolding get
start-IsIndexed = record { id_of = λ i r e. cc; hash_of = λ h i e. cc }

start-IsFresh : IsFresh "r1" start.storage
unfolding get
start-IsFresh = (refl, refl)

first_answer :
    (settle settling 99000 "r1" offer start).0 ≡ ok (succeeded "0xabc" "multiversx:D" "alice")
unfolding run_settler
first_answer = refl

one_sent : length (settle settling 99000 "r1" offer start).1.sent ≡ 1
unfolding run_settler
one_sent = refl

settle-Recorded_example : Recorded "alice" (settle settling 99000 "r1" offer start)
settle-Recorded_example =
    settle-Recorded settling 99000 "r1" offer start start-IsIndexed start-IsFresh

abbrev carol_offer : Request
carol_offer = record {
  payload = direct (record paid { sender = "carol"; signature = "carol" });
  accepted = asked;
  requirements = asked;
}

abbrev after_alice : State String String ℕ
after_alice = (settle settling 99000 "r1" offer start).1

abbrev after_carol : State String String ℕ
after_carol = (settle settling 99500 "r2" carol_offer after_alice).1

r2-IsFresh : IsFresh "r2" after_alice.storage
unfolding run_settler
r2-IsFresh = (refl, refl)

two_sent : length after_carol.sent ≡ 2
unfolding run_settler
two_sent = refl

-- The same request, after another payment was settled and after it has expired.
settle_once_example :
    (payer : String) × (settle settling 200000 "r3" offer after_carol
      ≡ (ok (succeeded "0xabc" "multiversx:D" payer), after_carol))
settle_once_example =
    settle_once settling 99000 "r1" offer start (succeeded "0xabc" "multiversx:D" "alice") "0xabc"
      start-IsIndexed start-IsFresh first_answer refl refl refl after_carol
      (onward 99500 "r2" carol_offer (idle after_alice) r2-IsFresh) 200000 "r3" offer refl

settle-IsIndexed_example : IsIndexed (settle settling 99000 "r1" offer start).1.storage
settle-IsIndexed_example =
    settle-IsIndexed settling 99000 "r1" offer start start-IsIndexed start-IsFresh

settle-SendsVerified_example :
    SendsVerified settling
      (verify chain (some answering) 99000 relaying offer).0
      []
      (settle settling 99000 "r1" offer start).1.sent
settle-SendsVerified_example = settle-SendsVerified settling 99000 "r1" offer start

sends : (settle settling 99000 "r1" offer start).1.sent ≢ []
unfolding run_settler
sends e = cc

settle-Established_example : Established chain (some answering) 99000 relaying offer
settle-Established_example = settle-Established settling answering 99000 "r1" offer start refl sends
