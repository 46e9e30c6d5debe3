-- ===== src/MessageCache.antt =====
-- message_cache.go: the hashes of the requests that were processed, until they expire. `now` is the
-- time in milliseconds of the call.
pub mod Expiry
use wthelly.Base.{
  ℕ, ◌+◌, ◌/◌, String, Bool, false, not, ltb, ◌==◌, Option, none, some, List, [], ◌∷◌, length,
  select, find, if◌then◌else◌,
}

pub record MessageCache : Type 0 where
  -- hash and expiry
  pub entries : List (String × ℕ)
  pub ttl : ℕ
  pub cleanup_counter : ℕ
  pub cleanup_every : ℕ

-- `NewMessageCache`
unfoldable pub new_message_cache : ℕ → MessageCache
new_message_cache ttl = record { entries = []; ttl = ttl; cleanup_counter = 0; cleanup_every = 10 }

-- `delete(mc.entries, hash)`
unfoldable pub delete : String → List (String × ℕ) → List (String × ℕ)
delete hash = select λ e. not (e.0 == hash)

-- `cleanupExpiredLocked`
unfoldable pub cleanup_expired : ℕ → MessageCache → MessageCache
cleanup_expired now mc = record mc { entries = select (λ e. not (ltb e.1 now)) mc.entries }

-- `recalculateCleanupInterval`
unfoldable pub recalculate_cleanup_interval : MessageCache → MessageCache
recalculate_cleanup_interval mc =
    let interval = length mc.entries / 10 in
    if ltb interval 10
    then record mc { cleanup_every = 10 }
    else if ltb 1000 interval
    then record mc { cleanup_every = 1000 }
    else record mc { cleanup_every = interval }

-- what `Add` stores before it counts
unfoldable pub store : ℕ → String → MessageCache → MessageCache
unfolding delete
store now hash mc = record mc {
  entries = (hash, now + mc.ttl) ∷ delete hash mc.entries;
  cleanup_counter = mc.cleanup_counter + 1;
}

-- `Add`
unfoldable pub add : ℕ → String → MessageCache → MessageCache
unfolding store cleanup_expired recalculate_cleanup_interval
add now hash mc =
    let stored = store now hash mc in
    if ltb stored.cleanup_counter stored.cleanup_every
    then stored
    else record (recalculate_cleanup_interval (cleanup_expired now stored)) { cleanup_counter = 0 }

-- `Exists`, on what the map holds for the hash
abbrev pub is_live : ℕ → Option (String × ℕ) → Bool
is_live now none = false
is_live now (some e) = not (ltb e.1 now)

-- `Exists`
unfoldable pub exists : ℕ → String → MessageCache → Bool
exists now hash mc = is_live now (find (λ e. e.0 == hash) mc.entries)

-- `Remove`
unfoldable pub remove : String → MessageCache → MessageCache
unfolding delete
remove hash mc = record mc { entries = delete hash mc.entries }
