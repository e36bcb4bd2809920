-- ===== src/Accounts/Tests.antt =====
-- The theorems on accounts at concrete inputs.
use Prim.Native.String.{String, ◌++◌ as append}
use infram.Prelude.{answer_of, find_one, ℕ, ◌≡◌, refl, true, false, [], ◌∷◌, any, ok, ◌==◌, List}
use infram.SessionManager.Tests.{one_session-Inv}
use infram.SignIn.{is_enabled_admin}
use infram.SignIn.Tests.{server, server-UniqueIds}
use infram.Accounts.{People, set_locked}
use infram.Accounts.Locking.{IsLockedOut, set_locked-IsLockedOut}
use infram.Accounts.Requests.{
  Request, creates_account, updates_password, updates_role, sets_locked, resets_second_factor,
  serve,
}
use infram.Accounts.Admins.{any-serve}

abbrev people : People
people = record { server = server; passkeys = record { id = 3; account_id = 1 } ∷ [] }

-- Account 2, an administrator too, locks account 1, whose connection ends.
abbrev locked : People
locked = (answer_of (people, "") (set_locked 1 true 2 people)).0

locked_lem : set_locked 1 true 2 people ≡ ok (locked, "root")
unfolding set_locked find_one
locked_lem = refl

set_locked-IsLockedOut_example : IsLockedOut 1 people locked × ((1 == 2) ≡ false)
set_locked-IsLockedOut_example =
    set_locked-IsLockedOut 1 2 people locked "root" one_session-Inv server-UniqueIds locked_lem

abbrev bcrypt : String → String → String
bcrypt salt password = append salt password

-- The administrator creates account 2, promotes it and is then locked by it.
abbrev requests : List (ℕ × Request)
requests =
    (
      1,
      creates_account 2 "salt" "secret"
          (record { username = "mia"; first_name = "Mia"; last_name = "Muster"; password = "pw" }),
    )
    ∷ (1, updates_role 2 "admin")
    ∷ (2, sets_locked 1 true)
    ∷ (1, sets_locked 2 true)
    ∷ (2, updates_password 1 "salt" "new")
    ∷ (2, resets_second_factor 1 "other")
    ∷ []

any-serve_example : any is_enabled_admin (serve bcrypt requests people).server.accounts ≡ true
unfolding any
any-serve_example = any-serve bcrypt requests people refl
