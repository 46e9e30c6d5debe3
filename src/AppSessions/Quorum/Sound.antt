-- ===== src/AppSessions/Quorum/Sound.antt =====
-- What a quorum is: the weights of distinct participants that signed.
use wthelly.Base.{
  ℕ, ◌+◌, ◌≡◌, get_elem?, String, ◌==◌, Option, none, some, List, [], ◌∷◌, any, All, if◌then◌else◌,
}
use wthelly.Base.Int.{ℤ, pos, pos_part}
use wthelly.Error.{Error}
use wthelly.Store.{AppSession}
use wthelly.AppSessions.{Weights}
use wthelly.AppSessions.Quorum.{weight_of}

abbrev counted : Option ℤ → ℕ
counted none = 0
counted (some x) = pos_part x

-- The weight of the wallets of a list, each counted once, in unbounded numbers.
unfoldable pub signed_weight : Weights → List String → List String → ℕ
signed_weight weights seen [] = 0
signed_weight weights seen (w ∷ ws) =
    if any (λ x. x == w) seen
    then signed_weight weights seen ws
    else counted (weight_of w weights) + signed_weight weights (w ∷ seen) ws

-- Every wallet of the list has a weight.
abbrev pub AllListed : Weights → List String → Type 0
AllListed weights ws = All (λ w. (x : ℤ) × (weight_of w weights ≡ some x)) ws

-- No weight is negative.
abbrev pub NonNegative : Weights → Type 0
NonNegative weights = (w : String) (x : ℤ) → weight_of w weights ≡ some x → x ≡ pos (pos_part x)

-- The weight of a wallet is one that the session gives it: it stands where the wallet stands.
abbrev pub GivenBy : AppSession → Weights → Type 0
GivenBy session weights =
    (w : String) (x : ℤ)
    → weight_of w weights ≡ some x
    → (i : ℕ) × (get_elem? session.participant_wallets i ≡ some w)
      × (get_elem? session.weights i ≡ some x)
