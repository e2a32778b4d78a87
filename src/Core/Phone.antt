-- ===== src/Core/Phone.antt =====
-- The sign-in codes of services/core-api/src/routes/phone-auth.ts: sending one, and checking it up to
-- where the account is looked up. `digest` is the SHA-256 of a row's id and a code; what other requests
-- do between the statements is an argument: `meanwhile`, `before` the codes are used up, `between` that and
-- the insert. Times are in milliseconds.
pub mod Laws
pub mod Checks
pub mod Sends
mod Examples
use push_be.Prelude.{
  ℕ, ◌+◌, ◌-◌, ◌*◌, ◌/◌, String, ◌==◌, Bool, true, false, not, ◌&&◌, Option, none, some, List, [],
  ◌∷◌, eqb, ltb, leb, max, if◌then◌else◌,
}

-- phone_codes
pub record Code : Type 0 where
  pub id : ℕ
  pub phone : String
  pub hash : String
  pub expires_at : ℕ
  pub attempts : ℕ
  pub sent_at : ℕ
  pub consumed_at : Option ℕ

abbrev pub is_open : String → Code → Bool
is_open phone c = c.phone == phone && (elim c.consumed_at [ none ↦ true | some t ↦ false ])

abbrev latest_of : ℕ → Option ℕ → ℕ
latest_of t none = t
latest_of t (some u) = max t u

-- LATEST_SENT
unfoldable pub latest_sent : String → List Code → Option ℕ
latest_sent phone [] = none
latest_sent phone (c ∷ cs) =
    let others = latest_sent phone cs in
    if c.phone == phone then some (latest_of c.sent_at others) else others

abbrev newer_of : Code → Option Code → Code
newer_of c none = c
newer_of c (some d) = if ltb c.sent_at d.sent_at then d else c

-- ACTIVE_CODE
unfoldable pub active : String → List Code → Option Code
active phone [] = none
active phone (c ∷ cs) =
    let others = active phone cs in if is_open phone c then some (newer_of c others) else others

-- CONSUME_OPEN
unfoldable pub consume_open : String → ℕ → List Code → List Code
consume_open phone now [] = []
consume_open phone now (c ∷ cs) =
    (if is_open phone c then record c { consumed_at = some now } else c) ∷ consume_open phone now cs

-- CONSUME_ONE
unfoldable pub consume_one : ℕ → ℕ → List Code → List Code
consume_one id now [] = []
consume_one id now (c ∷ cs) =
    (if eqb c.id id && is_open c.phone c then record c { consumed_at = some now } else c)
    ∷ consume_one id now cs

-- BUMP
unfoldable pub bump : ℕ → List Code → List Code
bump id [] = []
bump id (c ∷ cs) = (if eqb c.id id then record c { attempts = c.attempts + 1 } else c) ∷ bump id cs

-- `undelivered` is a code that is stored although the message was not sent.
pub data Sent : Type 0 where
  delivered : Sent
  wait : ℕ → Sent
  not_configured undelivered : Sent

-- `Math.ceil(... / 1000)`, of a time that has not come; 0 where it has.
abbrev pub wait_of : (cooldown now : ℕ) → Option ℕ → ℕ
wait_of cooldown now none = 0
wait_of cooldown now (some sent) = (sent + cooldown * 1000 - now + 999) / 1000

-- `sendPhone`; the cooldown and the time to live are in seconds.
unfoldable pub send_phone :
    (ℕ → String → String)
    → (before between : List Code → List Code) → (cooldown ttl : ℕ) → (is_configured arrives : Bool)
    → (id : ℕ) → (phone code : String) → (now : ℕ) → List Code
    → List Code × Sent
send_phone digest before between cooldown ttl is_configured arrives id phone code now cs =
    if ltb 0 (wait_of cooldown now (latest_sent phone cs))
    then (cs, wait (wait_of cooldown now (latest_sent phone cs)))
    else if not is_configured
    then (cs, not_configured)
    else (let stored : Code = record {
      id = id;
      phone = phone;
      hash = digest id code;
      expires_at = now + ttl * 1000;
      attempts = 0;
      sent_at = now;
      consumed_at = none;
    } in
        (
          stored ∷ between (consume_open phone now (before cs)),
          if arrives then delivered else undelivered,
        ))

pub data Checked : Type 0 where
  accepted invalid expired too_many bad_pending : Checked

-- `verifyPhone`, up to the account; `pending_ok` is whether the pending token is read.
unfoldable pub verify_phone :
    (ℕ → String → String)
    → (List Code → List Code)
    → (limit : ℕ) → (pending_ok : Bool) → (phone code : String) → (now : ℕ) → List Code
    → List Code × Checked
verify_phone digest meanwhile limit pending_ok phone code now cs = elim (active phone cs) [
  | none ↦ (cs, invalid)
  | some row ↦
      if leb row.expires_at now
      then (consume_one row.id now (meanwhile cs), expired)
      else if leb limit row.attempts
      then (cs, too_many)
      else if not (digest row.id code == row.hash)
      then (bump row.id (meanwhile cs), invalid)
      else if not pending_ok
      then (cs, bad_pending)
      else (consume_one row.id now (meanwhile cs), accepted)
]
