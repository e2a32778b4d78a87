-- ===== src/Core/Offers/Decisions.antt =====
-- The answers to an offer: `decideOffer` of services/core-api/src/routes/offers.ts.
use push_be.Prelude.{
  ℕ, String, ◌==◌, eq_iff, ◌≡◌, ◌≢◌, ◌⊎◌, refl, sym, ap, subst, ◌∙◌, true, false, ◌||◌, Option,
  none, some, List, [], ◌∷◌, arith, eqb, eqb_iff, Bool-cases, Option-cases, inl, inr,
}
use push_be.Core.Offers.{
  Status, sent, read, accepted, declined, Offer, Db, Error, not_found, forbidden, closed, invalid,
  ok, err, is_open, is_accepted, find, offer_for, updates, Body, reply_of, decided, announce,
  write_decision, decide_offer,
}
use push_be.Core.Offers.Progress.{
  moves, status_at, later, later_refl, later_trans, find-update, status_at-update, MovesOn,
  open_moves,
}

announce-offers :
    (user message : ℕ) (status : Status) (reply : String) (o : Offer) (db : Db)
    → (announce user message status reply o db).offers ≡ db.offers
unfolding announce
announce-offers user message status reply o db = ground arith

pub decided-later :
    (status : Status) (o : Offer) (db : Db) (j : ℕ)
    → is_open status ≡ false
    → later (status_at j db) (status_at j (decided status o db)) ≡ true
unfolding decided
decided-later status o db j c =
    status_at-update o.id is_open (λ p. record p { status = status }) (λ p. refl) j db.offers
      (λ p e. open_moves p.status status e c)

write_decision-later :
    (afterwards : Db → Db) (user message : ℕ) (status : Status) (reply : String) (o : Offer)
    (db : Db) (j : ℕ)
    → MovesOn j afterwards
    → is_open status ≡ false
    → later
        (status_at j db)
        (status_at j (write_decision afterwards user message status reply o db).0)
      ≡ true
unfolding write_decision
write_decision-later afterwards user message status reply o db j m c =
    let mid = decided status o db in
    let moved =
      later_trans (status_at j db) (status_at j mid) (status_at j (afterwards mid))
        (decided-later status o db j c) (m mid) in
    elim (Bool-cases (updates o.id is_open db.offers)) [
      | inl e ↦
          rw (write_decision, e)
            (rw (announce-offers user message status reply o (afterwards mid)) moved)
      | inr e ↦ rw (write_decision, e) (later_refl (status_at j db))
    ]

reply_of_sound :
    (text_of : String → Option String) (status : Status) (given : Option String) (reply : String)
    → reply_of text_of status given ≡ some reply
    → (is_accepted status || reply == "") ≡ true
reply_of_sound text_of sent given reply h = ground (arith, eq_iff reply "")
reply_of_sound text_of read given reply h = ground (arith, eq_iff reply "")
reply_of_sound text_of declined given reply h = ground (arith, eq_iff reply "")
reply_of_sound text_of accepted given reply h = refl

-- The handler refuses before it writes, or the user is the recipient and it gets to the update.
pub decide_offer-cases :
    (text_of : String → Option String) (meanwhile afterwards : Db → Db) (user id message : ℕ)
    (status : Status) (body : Body) (db : Db)
    → ((e : Error) × (decide_offer text_of meanwhile afterwards user id message status body db
          ≡ (db, err e)))
      ⊎ ((o : Offer) × (reply : String) × (offer_for user id db ≡ some o)
          × (o.recipient ≡ user)
          × (is_open o.status ≡ true)
          × ((is_accepted status || reply == "") ≡ true)
          × (decide_offer text_of meanwhile afterwards user id message status body db
              ≡ write_decision afterwards user message status reply o (meanwhile db)))
unfolding decide_offer
decide_offer-cases text_of meanwhile afterwards user id message status body db =
    elim (Option-cases (offer_for user id db)) [
      | inl e ↦ inl (not_found, rw (decide_offer, e) refl)
      | inr (o, e) ↦ elim (Bool-cases (eqb o.recipient user)) [
        | inr p ↦ inl (forbidden, rw (decide_offer, e, p) refl)
        | inl p ↦ elim (Bool-cases (is_open o.status)) [
          | inr q ↦ inl (closed, rw (decide_offer, e, p, q) refl)
          | inl q ↦ elim (Option-cases body) [
            | inl b ↦ inl (invalid, rw (decide_offer, e, p, q, b) refl)
            | inr (given, b) ↦ elim (Option-cases (reply_of text_of status given)) [
              | inl g ↦ inl (invalid, rw (decide_offer, e, p, q, b, g) refl)
              | inr (reply, g) ↦ inr (
                o,
                reply,
                e,
                ground (arith, eqb_iff o.recipient user),
                q,
                reply_of_sound text_of status given reply g,
                rw (decide_offer, e, p, q, b, g) refl,
              )
            ]
          ]
        ]
      ]
    ]

-- Answering an offer moves every offer on: it stays, is not sent or read again, and a decision is final;
-- the other requests that run between the statements do so too.
pub decide_offer-later :
    (text_of : String → Option String) (meanwhile afterwards : Db → Db) (user id message : ℕ)
    (status : Status) (body : Body) (db : Db) (j : ℕ)
    → MovesOn j meanwhile
    → MovesOn j afterwards
    → is_open status ≡ false
    → later
        (status_at j db)
        (status_at j (decide_offer text_of meanwhile afterwards user id message status body db).0)
      ≡ true
decide_offer-later text_of meanwhile afterwards user id message status body db j m n c =
    elim (decide_offer-cases text_of meanwhile afterwards user id message status body db) [
      | inl (r, e) ↦ rw e (later_refl (status_at j db))
      | inr (o, reply, found, mine, is_still_open, fits, e) ↦ rw e (
          later_trans (status_at j db) (status_at j (meanwhile db)) _ (m db)
            (write_decision-later afterwards user message status reply o (meanwhile db) j n c))
    ]

closed_stays : (a b : Status) → is_open a ≡ false → moves a b ≡ true → b ≡ a
closed_stays a b h k = ground arith

pub stays_at :
    (status : Status) (a b : Option Status)
    → a ≡ some status
    → is_open status ≡ false
    → later a b ≡ true
    → b ≡ some status
stays_at status none b h c l = cc
stays_at status (some a) none h c l = cc
stays_at status (some a) (some b) h c l = ground arith

pub offer_for-find :
    (user id : ℕ) (db : Db) (o : Offer) → offer_for user id db ≡ some o → find id db.offers ≡ some o
unfolding offer_for
offer_for-find user id db o h = ground (arith, h)

pub find-id : (id : ℕ) (os : List Offer) (o : Offer) → find id os ≡ some o → o.id ≡ id
unfolding find
find-id id [] o h = cc
find-id id (x ∷ os) o h = elim (Bool-cases (eqb x.id id)) [
  | inl e ↦ ground (arith, e, eqb_iff x.id id)
  | inr e ↦ find-id id os o (ground (arith, e))
]

updates-closed :
    (id : ℕ) (was : Status) (db : Db)
    → status_at id db ≡ some was
    → is_open was ≡ false
    → updates id is_open db.offers ≡ false
updates-closed id was db h c = elim (Option-cases (find id db.offers)) [
  | inl e ↦ ground (arith, e)
  | inr (o, e) ↦ ground (arith, e)
]

-- An answer fails where the offer is decided when its update runs, whatever it has read before.
decide_offer-closed :
    (text_of : String → Option String) (meanwhile afterwards : Db → Db) (user id message : ℕ)
    (status was : Status) (body : Body) (db : Db) (o : Offer)
    → status_at id (meanwhile db) ≡ some was
    → is_open was ≡ false
    → (decide_offer text_of meanwhile afterwards user id message status body db).1 ≢ ok o
unfolding write_decision
decide_offer-closed text_of meanwhile afterwards user id message status was body db o h c k =
    elim (decide_offer-cases text_of meanwhile afterwards user id message status body db) [
      | inl (r, e) ↦ absurd (ground (arith, e))
      | inr (p, reply, found, mine, is_still_open, fits, e) ↦
          let same = find-id id db.offers p (offer_for-find user id db p found) in
          let shut : updates p.id is_open (meanwhile db).offers ≡ false =
            rw same (updates-closed id was (meanwhile db) h c) in
          absurd (ground (arith, e, shut))
    ]

-- The update reaches the offer that was read.
pub status_at-decided :
    (status : Status) (o : Offer) (db : Db)
    → updates o.id is_open db.offers ≡ true
    → status_at o.id (decided status o db) ≡ some status
unfolding decided
status_at-decided status o db h =
    let written =
      find-update o.id is_open (λ p. record p { status = status }) (λ p. refl) db.offers in
    elim (Option-cases (find o.id db.offers)) [
      | inl e ↦ absurd (ground (arith, e))
      | inr (x, e) ↦ rw (written, e) (ground (arith, e))
    ]

write_decision-ok :
    (afterwards : Db → Db) (user message : ℕ) (status : Status) (reply : String) (o p : Offer)
    (db : Db)
    → MovesOn o.id afterwards
    → is_open status ≡ false
    → (write_decision afterwards user message status reply o db).1 ≡ ok p
    → status_at o.id (write_decision afterwards user message status reply o db).0 ≡ some status
unfolding write_decision
write_decision-ok afterwards user message status reply o p db m c h =
    let mid = decided status o db in
    elim (Bool-cases (updates o.id is_open db.offers)) [
      | inl e ↦
          let first = status_at-decided status o db e in
          let moved = m mid in
          rw (write_decision, e)
            (rw (announce-offers user message status reply o (afterwards mid)) (
              stays_at status (status_at o.id mid) (status_at o.id (afterwards mid)) first c moved))
      | inr e ↦ absurd (ground (arith, e))
    ]

-- An offer is decided once: after an answer that succeeds, no answer whose update runs later
-- succeeds, by anyone, also where it read the offer before the first answer was written. The requests
-- between the first answer and that update move the offer on, as the handlers do.
pub decide_offer_once :
    (text_of : String → Option String) (meanwhile afterwards meanwhile' afterwards' : Db → Db)
    (user user' id message message' : ℕ) (status status' : Status) (body body' : Body) (db d : Db)
    (o p : Offer)
    → MovesOn id afterwards
    → is_open status ≡ false
    → (decide_offer text_of meanwhile afterwards user id message status body db).1 ≡ ok o
    → later
        (status_at id (decide_offer text_of meanwhile afterwards user id message status body db).0)
        (status_at id (meanwhile' d))
      ≡ true
    → (decide_offer text_of meanwhile' afterwards' user' id message' status' body' d).1 ≢ ok p
decide_offer_once text_of meanwhile afterwards meanwhile' afterwards' user user' id message message'
      status status' body body' db d o p m c h l =
    elim (decide_offer-cases text_of meanwhile afterwards user id message status body db) [
      | inl (r, e) ↦ λ k. absurd (ground (arith, e))
      | inr (x, reply, found, mine, is_still_open, fits, e) ↦
          let same = find-id id db.offers x (offer_for-find user id db x found) in
          let m' : MovesOn x.id afterwards = subst (λ i. MovesOn i afterwards) (sym same) m in
          let now =
            write_decision-ok afterwards user message status reply x o (meanwhile db) m' c
              (ap (λ q. q.1) (sym e) ∙ h) in
          let then_on : status_at id
                (decide_offer text_of meanwhile afterwards user id message status body db).0
              ≡ some status =
            rw (e, sym same) now in
          decide_offer-closed text_of meanwhile' afterwards' user' id message' status' status body'
            d p (stays_at status _ (status_at id (meanwhile' d)) then_on c l) c
    ]
