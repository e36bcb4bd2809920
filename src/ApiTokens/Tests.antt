-- ===== src/ApiTokens/Tests.antt =====
-- The theorem on tokens at a concrete one.
use infram.Prelude.{
  ℕ, ◌≡◌, ◌+◌, ◌*◌, ◌||◌, refl, false, none, some, [], ◌∷◌, ok, leb, if◌then◌else◌, find_one,
}
use infram.SignIn.{Account, user}
use infram.ApiTokens.{Tokens, new_token, revoke_api_token, create_api_token, resolve_api_token}
use infram.ApiTokens.Life.{resolve_api_token-create_api_token}

abbrev hash : ℕ → ℕ
hash token = token * 7 + 1

abbrev robot : Account
robot = record {
  id = 4;
  first_name = "Rob";
  last_name = "Otto";
  username = "robot";
  password = "hashed";
  totp_enabled = false;
  role = user;
  disabled = false;
  auth_provider_type = none;
  auth_provider_name = none;
  totp_secret = "JBSWY3DP";
  session_sync = "same_browser";
}

abbrev none_yet : Tokens
none_yet = record { rows = []; accounts = robot ∷ [] }

-- A token 55 for 30 days, created at 1000 and used at 2000.
resolve_api_token-create_api_token_example :
    ((resolve_api_token hash 55 2000 (create_api_token hash 9 4 1 2 30 55 1000 none_yet)).1 ≡ (
      if leb (1000 + 30 * 24 * 3600 * 1000) 2000 || robot.disabled
      then none
      else some (new_token 9 4 1 2 30 (hash 55) 1000, robot)))
    × ((w : Tokens) × (revoke_api_token 9 none (create_api_token hash 9 4 1 2 30 55 1000 none_yet)
          ≡ ok w)
        × ((resolve_api_token hash 55 2000 w).1 ≡ none))
unfolding find_one
resolve_api_token-create_api_token_example =
    resolve_api_token-create_api_token hash 9 4 1 2 30 55 1000 2000 none_yet robot refl refl refl
