-- ===== src/Core/Offers.antt =====
-- services/core-api/src/routes/offers.ts: reading, answering, archiving and reporting an offer, and its
-- messages. What other requests do between two statements of a handler is an argument `meanwhile`. Ids
-- and times are numbers; `text_of` is textOf with the bounds of the field, none where it throws.
pub mod Progress
pub mod Decisions
pub mod Letters
mod Examples
use push_be.Prelude.{
  ℕ, String, ◌==◌, Bool, true, false, not, ◌&&◌, ◌||◌, Option, none, some, List, [], ◌∷◌, eqb,
  if◌then◌else◌, any_of,
}

pub data Status : Type 0 where
  sent read accepted declined : Status

-- offers
pub record Offer : Type 0 where
  pub id : ℕ
  pub sender : ℕ
  pub recipient : ℕ
  pub status : Status
  pub read_at : Option ℕ

-- offer_messages
pub record Message : Type 0 where
  pub id : ℕ
  pub offer : ℕ
  pub sender : ℕ
  pub body : String

-- offer_reports
pub record Report : Type 0 where
  pub offer : ℕ
  pub reporter : ℕ
  pub reported : ℕ

-- offer_archives holds (user, offer), user_blocks (blocker, blocked); `notices` are the calls
-- of notify, for whom and about which offer.
pub record Db : Type 0 where
  pub offers : List Offer
  pub messages : List Message
  pub reports : List Report
  pub archives : List (ℕ × ℕ)
  pub blocks : List (ℕ × ℕ)
  pub notices : List (ℕ × ℕ)

pub data Error : Type 0 where
  not_found forbidden closed not_accepted blocked invalid : Error

pub data Result {ℓ} (A : Type ℓ) : Type ℓ where
  ok : A → Result A
  err : Error → Result A

abbrev pub is_open : Status → Bool
is_open sent = true
is_open read = true
is_open _ = false

abbrev pub is_sent : Status → Bool
is_sent sent = true
is_sent _ = false

abbrev pub is_accepted : Status → Bool
is_accepted accepted = true
is_accepted _ = false

unfoldable pub find : ℕ → List Offer → Option Offer
find id [] = none
find id (o ∷ os) = if eqb o.id id then some o else find id os

-- `offerFor`: an offer that the user sent or received.
unfoldable pub offer_for : ℕ → ℕ → Db → Option Offer
offer_for user id db = elim (find id db.offers) [
  | none ↦ none
  | some o ↦ if eqb o.sender user || eqb o.recipient user then some o else none
]

-- UPDATE offers SET ... WHERE id = $1 AND status IN (...), where `id` is the primary key
unfoldable pub update : ℕ → (Status → Bool) → (Offer → Offer) → List Offer → List Offer
update id allowed change [] = []
update id allowed change (o ∷ os) =
    let others = update id allowed change os in
    if eqb o.id id then (if allowed o.status then change o else o) ∷ os else o ∷ others

-- Whether the statement returns a row.
abbrev pub updates : ℕ → (Status → Bool) → List Offer → Bool
updates id allowed os = elim (find id os) [ none ↦ false | some o ↦ allowed o.status ]

-- `getOffer`
unfoldable pub get_offer : (Db → Db) → (user id now : ℕ) → Db → Db × Result Offer
get_offer meanwhile user id now db = elim (offer_for user id db) [
  | none ↦ (db, err not_found)
  | some o ↦
      if eqb o.recipient user && is_sent o.status
      then (let later = meanwhile db in
          (
            record later {
              offers =
                  update id is_sent (λ p. record p { status = read; read_at = some now })
                    later.offers;
            },
            ok (record o { status = read; read_at = some now }),
          ))
      else (db, ok o)
]

-- What the body says: none where it is no object; absent, a null or a text for `reply`.
abbrev pub Body : Type 0
Body = Option (Option String)

-- The reply that an answer carries, "" where there is none.
abbrev pub reply_of : (String → Option String) → Status → Option String → Option String
reply_of text_of accepted (some reply) = text_of reply
reply_of text_of _ _ = some ""

abbrev pub add_message : Message → Db → Db
add_message m db = if m.body == "" then db else record db { messages = m ∷ db.messages }

-- The update of the decision.
unfoldable pub decided : Status → Offer → Db → Db
decided status o db = record db {
  offers = update o.id is_open (λ p. record p { status = status }) db.offers;
}

-- What follows it: the reply, and the notice of an acceptance.
unfoldable pub announce : (user message : ℕ) → Status → String → Offer → Db → Db
announce user message status reply o db =
    let written =
      add_message (record { id = message; offer = o.id; sender = user; body = reply }) db in
    if is_accepted status
    then record written { notices = (o.sender, o.id) ∷ written.notices }
    else written

unfoldable pub write_decision :
    (Db → Db) → (user message : ℕ) → Status → String → Offer → Db → Db × Result Offer
write_decision afterwards user message status reply o db =
    if updates o.id is_open db.offers
    then (
      announce user message status reply o (afterwards (decided status o db)),
      ok (record o { status = status }),
    )
    else (db, err closed)

-- `decideOffer`; `status` is accepted or declined.
unfoldable pub decide_offer :
    (String → Option String)
    → (meanwhile afterwards : Db → Db) → (user id message : ℕ) → Status
    → Body
    → Db
    → Db × Result Offer
decide_offer text_of meanwhile afterwards user id message status body db =
    elim (offer_for user id db) [
      | none ↦ (db, err not_found)
      | some o ↦
          if not (eqb o.recipient user)
          then (db, err forbidden)
          else if not (is_open o.status)
          then (db, err closed)
          else elim body [
            | none ↦ (db, err invalid)
            | some given ↦ elim (reply_of text_of status given) [
              | none ↦ (db, err invalid)
              | some reply ↦ write_decision afterwards user message status reply o (meanwhile db)
            ]
          ]
    ]

abbrev pub is_pair : ℕ → ℕ → ℕ × ℕ → Bool
is_pair a b p = eqb p.0 a && eqb p.1 b

unfoldable pub without : ℕ → ℕ → List (ℕ × ℕ) → List (ℕ × ℕ)
without a b [] = []
without a b (p ∷ ps) = if is_pair a b p then without a b ps else p ∷ without a b ps

-- `archiveOffer`
unfoldable pub archive_offer : (user id : ℕ) → Bool → Db → Db × Result Offer
archive_offer user id archive db = elim (offer_for user id db) [
  | none ↦ (db, err not_found)
  | some o ↦
      let later : Db = record db {
        archives =
            if archive
            then (if any_of (is_pair user id) db.archives
                then db.archives
                else (user, id) ∷ db.archives)
            else without user id db.archives;
      } in
      (later, elim (offer_for user id later) [ none ↦ err not_found | some p ↦ ok p ])
]

abbrev pub other_of : ℕ → Offer → ℕ
other_of user o = if eqb o.sender user then o.recipient else o.sender

abbrev reason_of : (String → Option String) → Body → Option String
reason_of text_of none = none
reason_of text_of (some none) = some ""
reason_of text_of (some (some reason)) = text_of reason

-- `reportOffer`; the body is read as in decide_offer.
unfoldable pub report_offer :
    (String → Option String) → (user id : ℕ) → Body → Db → Db × Result Offer
report_offer text_of user id body db = elim (offer_for user id db) [
  | none ↦ (db, err not_found)
  | some o ↦ elim (reason_of text_of body) [
    | none ↦ (db, err invalid)
    | some reason ↦ (
      record db {
        reports = record { offer = o.id; reporter = user; reported = other_of user o } ∷ db.reports;
      },
      ok o,
    )
  ]
]

-- `postOfferMessage`; the body is none where it is no object or its text is not one of 1 to 2000.
unfoldable pub post_offer_message :
    (Db → Db) → (user id message : ℕ) → Option String → Db → Db × Result Offer
post_offer_message meanwhile user id message text db = elim (offer_for user id db) [
  | none ↦ (db, err not_found)
  | some o ↦
      if not (is_accepted o.status)
      then (db, err not_accepted)
      else if any_of (is_pair (other_of user o) user) db.blocks
      then (db, err blocked)
      else elim text [
        | none ↦ (db, err invalid)
        | some body ↦
            let later = meanwhile db in
            (
              record later {
                messages =
                    record { id = message; offer = o.id; sender = user; body = body }
                    ∷ later.messages;
                notices = (other_of user o, o.id) ∷ later.notices;
              },
              ok o,
            )
      ]
]
