-- ===== src/Core/Companies/Examples.antt =====
-- The theorem on companies at a concrete one, and what its conditions are for.
use push_be.Prelude.{◌≡◌, refl, false, true, none, some, [], ◌∷◌, eqb, arith}
use push_be.Core.Companies.{
  pro, Member, Invite, Db, done, err, conflict, is_admin_of, count, seats, find_first, is_member,
  transfer, transfer_admin, remove, remove_member, renew, invite, claim, write_accept,
  accept_invite,
}
use push_be.Core.Companies.Seats.{Seated}
use push_be.Core.Companies.Requests.{transfer_to, perform_request, perform_request-Seated}

abbrev letter : Invite
letter = record {
  id = 5;
  company = 1;
  email = "new@push.example";
  hash = "token";
  expires_at = 900;
  accepted_at = none;
}

abbrev start : Db
start = record {
  members =
      record { company = 1; user = 7; is_admin = true }
      ∷ record { company = 1; user = 8; is_admin = false }
      ∷ [];
  invites = letter ∷ [];
  plan = λ c. pro;
  deleting = λ c. false;
}

abbrev alone : Db → Db
alone d = d

run_companies : Unit {0}
unfolding count find_first transfer transfer_admin remove remove_member renew invite claim
    write_accept accept_invite
run_companies = tt

joins : (accept_invite alone 9 500 true "new@push.example" "token" start).1 ≡ done
unfolding run_companies
joins = refl

last_one_stays : (remove_member alone 7 7 start).1 ≡ err conflict
unfolding run_companies
last_one_stays = refl

one_admin : Seated 1 500 start
unfolding run_companies
one_admin = (refl, omega arith)

-- A member who is made administrator while being removed leaves the company without one.
abbrev promoted : Db → Db
promoted d = (transfer_admin alone 7 8 d).0

nobody_left : count (is_admin_of 1) (remove_member promoted 7 8 start).0.members ≡ 0
unfolding run_companies
nobody_left = refl

-- At the moment when an invite expires it has no seat and is accepted all the same.
at_its_end : seats 1 900 start ≡ 1
unfolding run_companies
at_its_end = refl

accepted_at_its_end :
    seats 1 900 (accept_invite alone 9 900 true "new@push.example" "token" start).0 ≡ 2
unfolding run_companies
accepted_at_its_end = refl

still_member : count (is_member 1 8) start.members ≡ 1
unfolding run_companies
still_member = refl

asks_for_1 : (m : Member) → find_first (λ n. eqb n.user 7) start.members ≡ some m → m.company ≡ 1
unfolding run_companies
asks_for_1 m h = ground (arith, h)

perform_request-Seated_example : Seated 1 500 (perform_request alone 500 (transfer_to 7 8) start).0
perform_request-Seated_example =
    perform_request-Seated alone 1 500 (transfer_to 7 8) start (asks_for_1, still_member) (λ d h. h)
      one_admin
