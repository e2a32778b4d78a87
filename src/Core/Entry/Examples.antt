-- ===== src/Core/Entry/Examples.antt =====
-- The theorem on `handle` at concrete requests.
use push_be.Prelude.{String, ◌≡◌, refl, true, false, none, [], ◌∷◌}
use push_be.Routing.{matches, split_slash, decide}
use push_be.Core.ActAs.{act_as_of, act_as_allowed}
use push_be.Core.Dispatch.Tables.Accounts.{notification_job_rules}
use push_be.Core.Sessions.{find_access, resolve_user}
use push_be.Core.Dispatch.Images.{has_dots, is_image_read}
use push_be.Core.Entry.{
  skip_hex, is_groups, guest_rules, is_guest_read, public_rules, is_public, is_keyed, is_uuid,
  Request, World, guest, refused, served, serve_signed_in, serve_other, handle,
}

abbrev world : World
world = record {
  internal_secret = "internal";
  parse = λ s. none;
  member = λ u c. false;
  has_user = λ u. true;
  digest = λ s. s;
  env = record { development = false; dev_token = ""; dev_user = none };
  now = 5000;
  sessions = record {
    refreshes = [];
    accesses = record { user = 7; hash = "token"; refresh_id = 1; expires_at = 9000 } ∷ [];
  };
  allow_user = λ u. true;
  allow_ip = λ ip. true;
}

abbrev asks : String → String → String → Request
asks method path authz = record {
  method = method;
  path = path;
  authz = authz;
  secret = none;
  act_as = none;
  company = none;
  ip = "1.1.1.1";
}

run_entry : Unit {0}
unfolding handle serve_other serve_signed_in is_keyed is_public public_rules is_guest_read
    guest_rules is_groups skip_hex is_image_read has_dots find_access resolve_user
    notification_job_rules act_as_of act_as_allowed matches split_slash decide
run_entry = tt

abbrev new_post : Request
new_post = asks "POST" "/api/v1/posts" "Bearer token"

no_token : handle world (asks "POST" "/api/v1/posts" "") ≡ refused 401
unfolding run_entry
no_token = refl

guest_search : handle world (asks "GET" "/api/v1/search" "") ≡ served guest false
unfolding run_entry
guest_search = refl

an_id : is_uuid "0a1b2c3d-0000-4000-8000-00000000000F" ≡ true
unfolding run_entry
an_id = refl

no_id : is_uuid "0a1b2c3d-0000-4000-8000-00000000000" ≡ false
unfolding run_entry
no_id = refl

any_case :
    handle world (asks "GET" "/API/v1/Postings/0123ABCD-0000-4000-8000-0123456789ab" "")
    ≡ served guest false
unfolding run_entry
any_case = refl
