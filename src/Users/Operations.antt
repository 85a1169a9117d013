-- ===== src/Users/Operations.antt =====
-- Every method of Store that changes the users database, as one type of operations, and sequences
-- of them. What a client sees of a failed call is its error; the run goes on.
use my_eink_library.Common.{Text, ℕ, Bool, Option, List, [], ◌∷◌}
use my_eink_library.Users.{Role, Permission, Store, Bcrypt}
use my_eink_library.Users.Permissions.{set_permission_overrides}
use my_eink_library.Users.Accounts.{
  set_role, delete_user, set_enabled, set_email, set_digest_subscribed, create_first_admin, create,
  reset_password,
}
use my_eink_library.Users.Tokens.{
  TimedToken, revoke_bookmark_token, generate_bookmark_token, request_password_reset,
  consume_timed_token, resend_invite, invite_user,
}

-- The numbers are the clock and the salt, then ids; an Option Text is what the random source gave.
pub data Operation : Type 0 where
  op_create_first_admin : ℕ → ℕ → Text → Text → Operation
  op_create : ℕ → ℕ → Text → Text → Role → Bool → Text → Operation
  op_set_role : ℕ → Role → Bool → Operation
  op_delete : Bool → ℕ → Operation
  op_set_enabled : ℕ → Bool → Operation
  op_set_email : ℕ → Text → Operation
  op_reset_password : ℕ → ℕ → Text → Operation
  op_set_digest_subscribed : Text → Bool → Operation
  op_set_permissions : ℕ → List (Permission × Option Bool) → Operation
  op_generate_bookmark : ℕ → ℕ → Option Text → Text → Operation
  op_revoke_bookmark : Text → Operation
  op_request_reset : ℕ → ℕ → Option Text → Text → Operation
  op_consume : TimedToken → ℕ → ℕ → Text → Text → Operation
  op_invite : ℕ → ℕ → Option Text → Option Text → Text → Text → Role → Bool → Operation
  op_resend_invite : ℕ → ℕ → Option Text → ℕ → Operation

module _ (b : Bcrypt) where
  unfoldable pub run : Operation → Store → Store
  run (op_create_first_admin now salt name password) s =
      (create_first_admin b now salt name password s).1
  run (op_create now salt name password role can_bookmark email) s =
      (create b now salt name password role can_bookmark email s).1
  run (op_set_role id role can_bookmark) s = (set_role id role can_bookmark s).1
  run (op_delete foreign_keys id) s = (delete_user foreign_keys id s).1
  run (op_set_enabled id enabled) s = (set_enabled id enabled s).1
  run (op_set_email id email) s = (set_email id email s).1
  run (op_reset_password salt id password) s = (reset_password b salt id password s).1
  run (op_set_digest_subscribed name subscribed) s = set_digest_subscribed name subscribed s
  run (op_set_permissions id overrides) s = (set_permission_overrides id overrides s).1
  run (op_generate_bookmark now salt drawn name) s =
      (generate_bookmark_token b now salt drawn name s).1
  run (op_revoke_bookmark name) s = revoke_bookmark_token name s
  run (op_request_reset now salt drawn email) s =
      (request_password_reset b now salt drawn email s).1
  run (op_consume spec now salt token password) s =
      (consume_timed_token b spec now salt token password s).1
  run (op_invite now salt placeholder drawn name email role can_bookmark) s =
      (invite_user b now salt placeholder drawn name email role can_bookmark s).1
  run (op_resend_invite now salt drawn id) s = (resend_invite b now salt drawn id s).1

  unfoldable pub run_all : List Operation → Store → Store
  run_all [] s = s
  run_all (o ∷ os) s = run_all os (run o s)
