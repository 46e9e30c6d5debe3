-- ===== src/Tests/Routing.antt =====
-- Concrete requests of a connection that is not logged in, and of one that is.
use wthelly.Base.{◌≡◌, refl, inl, true, false, ◌==◌, none, some, [], ◌∷◌, any, find}
use wthelly.Base.Int.{ℤ}
use wthelly.Effect.{ok}
use wthelly.Auth.{new_auth_manager, validate_session}
use wthelly.RouterAuth.{Policy, Server, validate_timestamp}
use wthelly.RpcRouter.{Request, process_message}
use wthelly.RpcRouter.Guarded.{is_open, IsRefused, process_message-IsRefused}
use wthelly.RpcRouter.Served.{private_methods, IsLoggedIn, seen, process_message-handle}
use wthelly.Tests.{state_with}

abbrev server : Server ℤ
server = record { auth = new_auth_manager; state = state_with [] }

-- a stranger, and handlers that would accept everything
abbrev stranger : Request ℤ
stranger = record {
  now = 0;
  expiry = 60;
  is_test_mode = false;
  policy = none;
  user_id = "";
  timestamp = 0;
  handle = λ method n. (ok tt, n);
  store_message = λ n. n;
}

transfer-closed : is_open "transfer" ≡ false
unfolding any
transfer-closed = refl

process_message-IsRefused_example : IsRefused server (process_message stranger "transfer" server)
process_message-IsRefused_example =
    process_message-IsRefused stranger "transfer" server transfer-closed (inl refl)

abbrev login : Policy
login = record {
  wallet = "0xA";
  session_key = "0xK";
  scope = "";
  application = "chess";
  allowances = [];
  expires_at = 0;
}

-- A, who was active at the time of the request
abbrev active : Server ℤ
active = record {
  auth = record new_auth_manager { auth_sessions = ("0xA", 1500000000000000000) ∷ [] };
  state = state_with [];
}

abbrev member : Request ℤ
member = record stranger {
  now = 1500000000000000000;
  policy = some login;
  user_id = "0xA";
  timestamp = 1500000000000;
}

transfer-private : any (λ m. m == "transfer") private_methods ≡ true
unfolding any
transfer-private = refl

member-IsLoggedIn : IsLoggedIn member login active
unfolding validate_session validate_timestamp find new_auth_manager
member-IsLoggedIn = (refl, refl, refl, refl)

process_message-handle_example :
    (process_message member "transfer" active).0
    ≡ (member.handle "transfer" (seen member login active)).0
process_message-handle_example =
    process_message-handle member login "transfer" active transfer-private member-IsLoggedIn
