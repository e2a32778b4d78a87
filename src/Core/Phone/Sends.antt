-- ===== src/Core/Phone/Sends.antt =====
-- Sending the codes of services/core-api/src/routes/phone-auth.ts.
use push_be.Prelude.{
  ℕ, ◌+◌, ◌*◌, ◌≤◌, ◌<◌, String, eq_refl, ◌≡◌, refl, Bool, true, Option, none, some, List, [], ◌∷◌,
  arith,
}
use push_be.Core.Phone.{
  Code, latest_sent, consume_open, delivered, wait, wait_of, latest_of, send_phone,
}
use push_be.Core.Phone.Laws.{open_count}

consume_open-none :
    (phone : String) (now : ℕ) (cs : List Code) → open_count phone (consume_open phone now cs) ≡ 0
unfolding consume_open
consume_open-none phone now [] = refl
consume_open-none phone now (c ∷ cs) =
    let later = consume_open-none phone now cs in ground (arith, later)

-- Where no other request comes between its statements, sending a code keeps the open codes of a phone at
-- one at most: the earlier ones are used up.
pub send_phone-open_count :
    (digest : ℕ → String → String) (cooldown ttl : ℕ) (is_configured arrives : Bool) (id : ℕ)
    (phone code : String) (now : ℕ) (cs : List Code)
    → open_count phone cs ≤ 1
    → open_count phone
        (send_phone digest
          (λ d. d)
          (λ d. d)
          cooldown
          ttl
          is_configured
          arrives
          id
          phone
          code
          now
          cs).0
      ≤ 1
unfolding send_phone
send_phone-open_count digest cooldown ttl is_configured arrives id phone code now cs h =
    let used = consume_open-none phone now cs in ground (arith, used)

wait_of-positive :
    (cooldown now sent : ℕ) (o : Option ℕ)
    → now < sent + cooldown * 1000
    → 0 < wait_of cooldown now (some (latest_of sent o))
wait_of-positive cooldown now sent none h = omega arith
wait_of-positive cooldown now sent (some u) h = omega arith

send_phone-waits :
    (digest : ℕ → String → String) (cooldown ttl : ℕ) (is_configured arrives : Bool) (id : ℕ)
    (phone code : String) (now : ℕ) (cs : List Code)
    → 0 < wait_of cooldown now (latest_sent phone cs)
    → send_phone digest (λ d. d) (λ d. d) cooldown ttl is_configured arrives id phone code now cs
      ≡ (cs, wait (wait_of cooldown now (latest_sent phone cs)))
unfolding send_phone
send_phone-waits digest cooldown ttl is_configured arrives id phone code now cs h =
    ground (arith, h)

latest_sent-send_phone :
    (digest : ℕ → String → String) (cooldown ttl : ℕ) (is_configured : Bool) (id : ℕ)
    (phone code : String) (now : ℕ) (cs : List Code)
    → (send_phone digest (λ d. d) (λ d. d) cooldown ttl is_configured true id phone code now cs).1
      ≡ delivered
    → (o : Option ℕ) × (latest_sent phone
          (send_phone digest
            (λ d. d)
            (λ d. d)
            cooldown
            ttl
            is_configured
            true
            id
            phone
            code
            now
            cs).0
        ≡ some (latest_of now o))
unfolding send_phone latest_sent
latest_sent-send_phone digest cooldown ttl is_configured id phone code now cs h =
    (latest_sent phone (consume_open phone now cs), ground (arith, eq_refl phone, h))

-- Where no other request comes between its statements or after it, a code that was sent lets no other be
-- sent to the phone until the cooldown is over, and asking for one changes nothing.
pub send_phone_twice :
    (digest : ℕ → String → String) (cooldown ttl : ℕ) (is_configured arrives : Bool) (id id' : ℕ)
    (phone code code' : String) (now now' : ℕ) (cs : List Code)
    → (send_phone digest (λ d. d) (λ d. d) cooldown ttl is_configured true id phone code now cs).1
      ≡ delivered
    → now' < now + cooldown * 1000
    → (n : ℕ) × (0 < n)
      × (send_phone digest
            (λ d. d)
            (λ d. d)
            cooldown
            ttl
            is_configured
            arrives
            id'
            phone
            code'
            now'
            (send_phone digest
              (λ d. d)
              (λ d. d)
              cooldown
              ttl
              is_configured
              true
              id
              phone
              code
              now
              cs).0
          ≡ (
            (send_phone digest
                (λ d. d)
                (λ d. d)
                cooldown
                ttl
                is_configured
                true
                id
                phone
                code
                now
                cs).0,
            wait n,
          ))
send_phone_twice digest cooldown ttl is_configured arrives id id' phone code code' now now' cs h
      soon =
    let after =
      (send_phone digest (λ d. d) (λ d. d) cooldown ttl is_configured true id phone code now
        cs).0 in
    let (o, e) = latest_sent-send_phone digest cooldown ttl is_configured id phone code now cs h in
    let long : 0 < wait_of cooldown now' (latest_sent phone after) =
      rw e (wait_of-positive cooldown now' now o soon) in
    (
      wait_of cooldown now' (latest_sent phone after),
      long,
      send_phone-waits digest cooldown ttl is_configured arrives id' phone code' now' after long,
    )
