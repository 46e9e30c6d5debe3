-- ===== src/Tests.antt =====
-- Concrete libraries, rows and states, on which the children run the code and apply the theorems.
pub mod Funds
pub mod Sessions
pub mod Ledgers
pub mod Requests
pub mod Events
pub mod ChannelRequests
pub mod Hub
pub mod Worker
pub mod Listener
pub mod Logins
pub mod Routing
use wthelly.Base.{
  ℕ, ◌≡◌, refl, String, Bool, true, false, not, ◌||◌, ◌==◌, eq_iff, Option, none, some, select,
  ◌&&◌, List, [], ◌∷◌, ◌+◌, arith, if◌then◌else◌,
}
use wthelly.Base.Int.{ℤ, pos, part, negsuc, pos_part, neg_part, ◌+ℤ◌, ◌-ℤ◌, ◌≤ℤ◌, ltb_ℤ, eq_ℤ}
use wthelly.Money.{DecimalOps, Addresses}
use wthelly.Store.{State, Db, Entry, AppSession, SessionKey, open_status}
use wthelly.Ledger.{book}
use wthelly.Ledger.Value.{value_of, total, value_of-book}
use wthelly.Ledger.Balance.{row}
use wthelly.Ledger.Moves.{IsSolvent}
use wthelly.AppSessions.{AppAllocation, Update}

rounds : (a : ℤ) → ltb_ℤ a (pos 0) ≡ true → (a ≤ℤ a) × (a ≤ℤ pos 0)
rounds a h = ground arith

-- Decimals that are whole numbers, of tokens that have no decimals.
abbrev sum_of : List ℤ → ℤ
sum_of [] = pos 0
sum_of (x ∷ xs) = x +ℤ sum_of xs

instance pub whole_decimals : DecimalOps ℤ
whole_decimals = record {
  zero_d = pos 0;
  add = λ a b. a +ℤ b;
  sub = λ a b. a -ℤ b;
  neg = λ a. pos 0 -ℤ a;
  abs = λ a. pos (pos_part a + neg_part a);
  is_zero = λ a. eq_ℤ a (pos 0);
  is_positive = λ a. ltb_ℤ (pos 0) a;
  is_negative = λ a. ltb_ℤ a (pos 0);
  less_than = ltb_ℤ;
  greater_than = λ a b. ltb_ℤ b a;
  less_than_or_equal = λ a b. not (ltb_ℤ b a);
  equal = eq_ℤ;
  from_string = λ s. if s == "100" then some (pos 100) else none;
  from_big_int = λ raw decimals. raw;
  big_int = λ a. a;
  shift = λ a decimals. a;
  float_sum = sum_of;
  float_difference = λ xs ys. sum_of xs -ℤ sum_of ys;
  units = λ a. a;
  units-zero_d = refl;
  units-add = λ a b. refl;
  units-sub = λ a b. refl;
  units-neg = λ a. refl;
  units-abs = λ a. refl;
  is_zero_lem = λ a. refl;
  is_positive_lem = λ a. refl;
  is_negative_lem = λ a. refl;
  less_than_lem = λ a b. refl;
  greater_than_lem = λ a b. refl;
  less_than_or_equal_lem = λ a b. refl;
  equal_lem = λ a b. refl;
  units-from_big_int = λ a b decimals. refl;
  from_big_int_pos = λ a decimals. refl;
  from_big_int_neg = λ a decimals. refl;
  less_than-shift = λ a b decimals. refl;
  units-shift_from_big_int = λ a decimals. refl;
  big_int_of_negative = λ a h. rounds a h;
  big_int-from_big_int = λ a. refl;
}

abbrev spell : Bool → String
spell true = "0xA"
spell false = "0xB"

abbrev to_address : String → String
to_address s = spell (s == "0xA")

abbrev is_address : String → Bool
is_address s = s == "0xA" || s == "0xB"

is_address-spell : (b : Bool) → is_address (spell b) ≡ true
is_address-spell true = refl
is_address-spell false = refl

to_address-spell : (b : Bool) → to_address (spell b) ≡ spell b
to_address-spell true = refl
to_address-spell false = refl

abbrev pub negated : ℕ → ℤ
negated n = pos 0 -ℤ pos n

-- A world of two addresses.
instance pub two_addresses : Addresses
two_addresses = record {
  is_hex_address = is_address;
  hex_address = to_address;
  is_hex_address-hex_address = λ s. is_address-spell (s == "0xA");
  hex_address-hex_address = λ s. to_address-spell (s == "0xA");
}

abbrev pub game : AppSession
game = record {
  protocol = "NitroRPC/0.4";
  session_id = "game";
  application = "chess";
  challenge = 0;
  nonce = 1;
  participant_wallets = "0xA" ∷ "0xB" ∷ [];
  weights = pos 60 ∷ pos 40 ∷ [];
  session_data = "";
  quorum = 100;
  version = 1;
  status = open_status;
}

-- A has 100 in its own account.
abbrev pub funded : List (Entry ℤ)
funded = book "0xA" "0xA" "usdc" (pos 100) none []

holds : (b : Bool) → pos 0 ≤ℤ pos 0 +ℤ part b (pos 100)
unfolding ◌+ℤ◌
holds true = omega arith
holds false = omega arith

pub funded-IsSolvent : IsSolvent funded
unfolding value_of total select whole_decimals
funded-IsSolvent = record {
  at = λ wallet asset.
      rw (value_of-book (row wallet asset wallet) "0xA" "0xA" "usdc" (pos 100) none [])
        (holds (row wallet asset wallet "0xA" "usdc" "0xA"));
}

-- A has 60 in its own account and 40 in the session.
abbrev pub deposited : List (Entry ℤ)
deposited = book "0xA" "game" "usdc" (pos 40) none (book "0xA" "0xA" "usdc" (negsuc 39) none funded)

remains : (b c : Bool) → pos 0 ≤ℤ pos 0 +ℤ part b (pos 100) +ℤ part b (negsuc 39) +ℤ part c (pos 40)
unfolding ◌+ℤ◌
remains true true = omega arith
remains true false = omega arith
remains false true = omega arith
remains false false = omega arith

pub deposited-IsSolvent : IsSolvent deposited
unfolding value_of total select whole_decimals
deposited-IsSolvent = record {
  at = λ wallet asset.
      rw
        (
          value_of-book (row wallet asset wallet) "0xA" "game" "usdc" (pos 40) none
              (book "0xA" "0xA" "usdc" (negsuc 39) none funded),
          value_of-book (row wallet asset wallet) "0xA" "0xA" "usdc" (negsuc 39) none funded,
          value_of-book (row wallet asset wallet) "0xA" "0xA" "usdc" (pos 100) none [],
        )
        (remains (row wallet asset wallet "0xA" "usdc" "0xA")
          (row wallet asset wallet "game" "usdc" "0xA"));
}

abbrev pub state_with : List (Entry ℤ) → State ℤ
state_with es = record {
  driver = "postgres";
  db = record {
    ledger = es;
    ledger_transactions = [];
    channels = [];
    app_sessions = game ∷ [];
    session_keys = [];
    user_tags = [];
    contract_events = [];
    blockchain_actions = [];
  };
  cache = [];
}

abbrev pub allocated : String → ℤ → AppAllocation ℤ
allocated p x = record { participant = p; asset_symbol = "usdc"; amount = x }

-- what the two participants ask for, both having signed
abbrev pub request : List (AppAllocation ℤ) → Update ℤ
request allocs = record {
  app_session = game;
  app_session_id = "game";
  allocations = allocs;
  rpc_signers = "0xA" ∷ "0xB" ∷ [];
  participant_weights = ("0xB", pos 40) ∷ ("0xA", pos 60) ∷ [];
}
