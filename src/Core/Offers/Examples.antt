-- ===== src/Core/Offers/Examples.antt =====
-- The theorems on offers at concrete inputs.
use push_be.Prelude.{◌≡◌, ◌≢◌, refl, none, some, [], ◌∷◌}
use push_be.Core.Offers.{
  sent, accepted, declined, Offer, Db, ok, find, offer_for, update, get_offer, Body, decided,
  announce, write_decision, decide_offer, post_offer_message,
}
use push_be.Core.Offers.Progress.{later_refl, status_at}
use push_be.Core.Offers.Decisions.{decide_offer_once}
use push_be.Core.Offers.Letters.{Agreed, post_offer_message-Agreed, decide_offer-Agreed}

abbrev offered : Offer
offered = record { id = 1; sender = 10; recipient = 20; status = sent; read_at = none }

abbrev start : Db
start = record {
  offers = offered ∷ [];
  messages = [];
  reports = [];
  archives = [];
  blocks = [];
  notices = [];
}

abbrev alone : Db → Db
alone d = d

abbrev with_thanks : Body
with_thanks = some (some "thanks")

abbrev accepted_db : Db
accepted_db = (decide_offer some alone alone 20 1 5 accepted with_thanks start).0

run_offers : Unit {0}
unfolding decide_offer write_decision decided announce offer_for find update get_offer
    post_offer_message
run_offers = tt

accepted_once :
    (decide_offer some alone alone 20 1 5 accepted with_thanks start).1
    ≡ ok (record offered { status = accepted })
unfolding run_offers
accepted_once = refl

thanks_sent : accepted_db.messages ≡ record { id = 5; offer = 1; sender = 20; body = "thanks" } ∷ []
unfolding run_offers
thanks_sent = refl

-- The second answer reads the offer before the first is written, and writes after it.
abbrev after_first : Db → Db
after_first d = accepted_db

decide_offer_once_example :
    (decide_offer some after_first alone 20 1 6 declined (some none) start).1 ≢ ok offered
decide_offer_once_example =
    decide_offer_once some alone alone after_first alone 20 20 1 5 6 accepted declined with_thanks
      (some none) start start (record offered { status = accepted }) offered
      (λ d. later_refl (status_at 1 d)) refl accepted_once (later_refl (status_at 1 accepted_db))

decide_offer-Agreed_example : Agreed accepted_db accepted_db.messages
decide_offer-Agreed_example =
    decide_offer-Agreed some alone alone 20 1 5 accepted with_thanks start
      (λ d. later_refl (status_at 1 d)) (λ d h. h) (λ d h. h) refl tt

accepted_db-Agreed : Agreed accepted_db accepted_db.messages
unfolding run_offers
accepted_db-Agreed = (refl, tt)

post_offer_message-Agreed_example :
    Agreed
      (post_offer_message alone 10 1 8 (some "hello") accepted_db).0
      (post_offer_message alone 10 1 8 (some "hello") accepted_db).0.messages
post_offer_message-Agreed_example =
    post_offer_message-Agreed alone 10 1 8 (some "hello") accepted_db
      (λ d. later_refl (status_at 1 d)) (λ d h. h) accepted_db-Agreed
