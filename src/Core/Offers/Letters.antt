-- ===== src/Core/Offers/Letters.antt =====
-- Reading an offer, and its messages, in services/core-api/src/routes/offers.ts.
use push_be.Prelude.{
  ℕ, String, ◌==◌, ◌≡◌, refl, sym, ap, subst, ◌∙◌, true, false, ◌||◌, Option, some, List, [], ◌∷◌,
  arith, any_of, All, Bool-cases, Option-cases, inl, inr,
}
use push_be.Core.Offers.{
  Status, read, accepted, Offer, Message, Db, is_open, is_sent, is_accepted, offer_for, updates,
  get_offer, Body, is_pair, other_of, decided, announce, write_decision, decide_offer,
  post_offer_message,
}
use push_be.Core.Offers.Progress.{
  later, status_at, later_refl, later_trans, MovesOn, status_at-update, moves,
}
use push_be.Core.Offers.Decisions.{
  stays_at, find-id, offer_for-find, status_at-decided, decided-later, decide_offer-cases,
}

read_moves : (o : Offer) → is_sent o.status ≡ true → moves o.status read ≡ true
read_moves o h = ground arith

-- Reading an offer moves every offer on.
pub get_offer-later :
    (meanwhile : Db → Db) (user id now : ℕ) (db : Db) (j : ℕ)
    → MovesOn j meanwhile
    → later (status_at j db) (status_at j (get_offer meanwhile user id now db).0) ≡ true
unfolding get_offer
get_offer-later meanwhile user id now db j m =
    let step =
      status_at-update id is_sent (λ p. record p { status = read; read_at = some now }) (λ p. refl)
        j (meanwhile db).offers read_moves in
    let both = later_trans (status_at j db) (status_at j (meanwhile db)) _ (m db) step in
    let stays = later_refl (status_at j db) in ground (arith, both, stays)

-- Every message is about an offer that is accepted.
abbrev pub Agreed : Db → List Message → Type 0
Agreed d ms = All (λ m. status_at m.offer d ≡ some accepted) ms

Agreed-later :
    (d e : Db) (ms : List Message)
    → ((j : ℕ) → later (status_at j d) (status_at j e) ≡ true)
    → Agreed d ms
    → Agreed e ms
Agreed-later d e [] l h = tt
Agreed-later d e (m ∷ ms) l (p, h) = (
  stays_at accepted (status_at m.offer d) (status_at m.offer e) p refl (l m.offer),
  Agreed-later d e ms l h,
)

accepted_only : (s : Status) → is_accepted s ≡ true → s ≡ accepted
accepted_only s h = ground arith

announce-Agreed :
    (user message : ℕ) (status : Status) (reply : String) (o : Offer) (db : Db)
    → Agreed db db.messages
    → status_at o.id db ≡ some status
    → (is_accepted status || reply == "") ≡ true
    → Agreed
        (announce user message status reply o db)
        (announce user message status reply o db).messages
unfolding announce
announce-Agreed user message status reply o db h s f = elim (Bool-cases (reply == "")) [
  | inl e ↦ elim (Bool-cases (is_accepted status)) [
    | inl q ↦ rw (announce, e, q) h
    | inr q ↦ rw (announce, e, q) h
  ]
  | inr e ↦ elim (Bool-cases (is_accepted status)) [
    | inl q ↦ rw (announce, e, q) (s ∙ ap some (accepted_only status q), h)
    | inr q ↦ absurd (ground (arith, e, q))
  ]
]

-- The other requests keep every message with an accepted offer.
abbrev pub Keeps : (Db → Db) → Type 0
Keeps meanwhile = (d : Db) → Agreed d d.messages → Agreed (meanwhile d) (meanwhile d).messages

write_decision-Agreed :
    (afterwards : Db → Db) (user message : ℕ) (status : Status) (reply : String) (o : Offer)
    (db : Db)
    → MovesOn o.id afterwards
    → Keeps afterwards
    → is_open status ≡ false
    → (is_accepted status || reply == "") ≡ true
    → Agreed db db.messages
    → Agreed
        (write_decision afterwards user message status reply o db).0
        (write_decision afterwards user message status reply o db).0.messages
unfolding write_decision decided
write_decision-Agreed afterwards user message status reply o db m k c f h =
    let mid = decided status o db in
    let kept : Agreed mid mid.messages =
      Agreed-later db mid db.messages (λ j. decided-later status o db j c) h in
    elim (Bool-cases (updates o.id is_open db.offers)) [
      | inl e ↦
          let now =
            stays_at status (status_at o.id mid) (status_at o.id (afterwards mid))
              (status_at-decided status o db e) c (m mid) in
          rw (write_decision, e)
            (announce-Agreed user message status reply o (afterwards mid) (k mid kept) now f)
      | inr e ↦ rw (write_decision, e) h
    ]

-- Answering an offer keeps every message with an accepted offer, the reply included, if the other
-- requests between its statements do.
pub decide_offer-Agreed :
    (text_of : String → Option String) (meanwhile afterwards : Db → Db) (user id message : ℕ)
    (status : Status) (body : Body) (db : Db)
    → MovesOn id afterwards
    → Keeps meanwhile
    → Keeps afterwards
    → is_open status ≡ false
    → Agreed db db.messages
    → Agreed
        (decide_offer text_of meanwhile afterwards user id message status body db).0
        (decide_offer text_of meanwhile afterwards user id message status body db).0.messages
decide_offer-Agreed text_of meanwhile afterwards user id message status body db m k k' c h =
    elim (decide_offer-cases text_of meanwhile afterwards user id message status body db) [
      | inl (r, e) ↦ rw e h
      | inr (o, reply, found, mine, is_still_open, fits, e) ↦
          let same = find-id id db.offers o (offer_for-find user id db o found) in
          let m' : MovesOn o.id afterwards = subst (λ i. MovesOn i afterwards) (sym same) m in
          rw e (
            write_decision-Agreed afterwards user message status reply o (meanwhile db) m' k' c fits
              (k db h))
    ]

-- A message is only written for an offer that is accepted, and stays accepted while it is written.
pub post_offer_message-Agreed :
    (meanwhile : Db → Db) (user id message : ℕ) (text : Option String) (db : Db)
    → MovesOn id meanwhile
    → Keeps meanwhile
    → Agreed db db.messages
    → Agreed
        (post_offer_message meanwhile user id message text db).0
        (post_offer_message meanwhile user id message text db).0.messages
unfolding post_offer_message
post_offer_message-Agreed meanwhile user id message text db m k h =
    elim (Option-cases (offer_for user id db)) [
      | inl e ↦ rw (post_offer_message, e) h
      | inr (o, e) ↦ elim (Bool-cases (is_accepted o.status)) [
        | inr a ↦ rw (post_offer_message, e, a) h
        | inl a ↦ elim (Bool-cases (any_of (is_pair (other_of user o) user) db.blocks)) [
          | inl b ↦ rw (post_offer_message, e, a, b) h
          | inr b ↦ elim (Option-cases text) [
            | inl t ↦ rw (post_offer_message, e, a, b, t) h
            | inr (body, t) ↦
                let there = offer_for-find user id db o e in
                let same = find-id id db.offers o there in
                let before : status_at id db ≡ some accepted = ground (arith, there) in
                let after =
                  stays_at accepted (status_at id db) (status_at id (meanwhile db)) before refl
                    (m db) in
                rw (post_offer_message, e, a, b, t, same) (after, k db h)
          ]
        ]
      ]
    ]
