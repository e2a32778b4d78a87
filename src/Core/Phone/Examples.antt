-- ===== src/Core/Phone/Examples.antt =====
-- The theorems on sign-in codes at concrete inputs.
use push_be.Prelude.{ℕ, ◌≤◌, ◌<◌, String, ◌≡◌, refl, true, List, [], arith}
use push_be.Core.Phone.{
  Code, latest_sent, active, consume_open, consume_one, delivered, wait, send_phone, accepted,
  invalid, verify_phone,
}
use push_be.Core.Phone.Laws.{open_count, verify_phone_twice}
use push_be.Core.Phone.Checks.{Usable, verify_phone_sound}
use push_be.Core.Phone.Sends.{send_phone-open_count, send_phone_twice}

-- The digest of a code is the code here.
abbrev plain : ℕ → String → String
plain id code = code

abbrev sent_once : List Code
sent_once =
    (send_phone plain (λ d. d) (λ d. d) 168 180 true true 1 "+821012345678" "123456" 5000 []).0

run_codes : Unit {0}
unfolding send_phone verify_phone latest_sent active consume_open consume_one
run_codes = tt

sent_it :
    (send_phone plain (λ d. d) (λ d. d) 168 180 true true 1 "+821012345678" "123456" 5000 []).1
    ≡ delivered
unfolding run_codes
sent_it = refl

one_open : open_count "+821012345678" sent_once ≤ 1
unfolding run_codes
one_open = omega arith

checked : (verify_phone plain (λ d. d) 5 true "+821012345678" "123456" 9000 sent_once).1 ≡ accepted
unfolding run_codes
checked = refl

verify_phone_sound_example :
    (r : Code) × Usable "+821012345678" sent_once r
    × (plain r.id "123456" ≡ r.hash)
    × (9000 < r.expires_at)
    × (r.attempts < 5)
    × (true ≡ true)
verify_phone_sound_example =
    verify_phone_sound plain (λ d. d) 5 true "+821012345678" "123456" 9000 sent_once checked

verify_phone_twice_example :
    (verify_phone plain
      (λ d. d)
      5
      true
      "+821012345678"
      "123456"
      9500
      (verify_phone plain (λ d. d) 5 true "+821012345678" "123456" 9000 sent_once).0).1
    ≡ invalid
verify_phone_twice_example =
    verify_phone_twice plain 5 true true "+821012345678" "123456" "123456" 9000 9500 sent_once
      one_open checked

send_phone-open_count_example :
    open_count "+821012345678"
      (send_phone plain
        (λ d. d)
        (λ d. d)
        168
        180
        true
        true
        2
        "+821012345678"
        "654321"
        500000
        sent_once).0
    ≤ 1
send_phone-open_count_example =
    send_phone-open_count plain 168 180 true true 2 "+821012345678" "654321" 500000 sent_once
      one_open

send_phone_twice_example :
    (n : ℕ) × (0 < n)
    × (send_phone plain
          (λ d. d)
          (λ d. d)
          168
          180
          true
          true
          2
          "+821012345678"
          "654321"
          60000
          sent_once
        ≡ (sent_once, wait n))
send_phone_twice_example =
    send_phone_twice plain 168 180 true true 1 2 "+821012345678" "123456" "654321" 5000 60000 []
      sent_it (omega arith)

-- Two requests that both read before the other writes leave two codes open.
abbrev other_send : List Code → List Code
other_send d =
    (send_phone plain (λ e. e) (λ e. e) 168 180 true true 2 "+821012345678" "654321" 5000 d).0

two_open :
    open_count "+821012345678"
      (send_phone plain (λ d. d) other_send 168 180 true true 1 "+821012345678" "123456" 5000 []).0
    ≡ 2
unfolding run_codes
two_open = refl
