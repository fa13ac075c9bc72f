-- ===== src/Scheduler/Cache.antt =====
-- src/batch-scheduler/DecisionCache.cpp: decisions kept by app id and number of messages. The
-- source's key is the string of the two numbers with `_` between them, here the pair of them.
pub mod Laws
use faabric.Prelude.{
  ℕ, ◌≡◌, ◌↔◌, refl, Bool, true, ◌&&◌, not, Option, none, some, List, [], ◌∷◌, String, arith, ltb,
  length, ◌==◌, if◌then◌else◌, Key,
}
use faabric.Prelude.Int.{ℤ, int_eq, int_eq_iff, ltb_ℤ}
use faabric.Prelude.Maps.{Map, lookup, insert}
use faabric.Prelude.Results.{Result, ok, throws, ◌>>=◌}
use faabric.Batch.{BatchExecuteRequest, Message}
use faabric.Scheduler.Decision.{SchedulingDecision}

pub data CacheError : Type 0 where
  no_messages : CacheError
  invalid_cached_decision : CacheError
  invalid_decision_caching : CacheError

pub record CachedDecision : Type 0 where
  pub hosts : List String
  pub group_id : ℤ

pub record CacheKey : Type 0 where
  pub app_id : ℤ
  pub size : ℕ

abbrev pub same_key : CacheKey → CacheKey → Bool
same_key a b = int_eq a.app_id b.app_id && (a.size == b.size)

abbrev pub key_before : CacheKey → CacheKey → Bool
key_before a b = if int_eq a.app_id b.app_id then ltb a.size b.size else ltb_ℤ a.app_id b.app_id

pub same_key_iff : (a b : CacheKey) → (same_key a b ≡ true) ↔ (a ≡ b)
same_key_iff a b = ground arith

instance abbrev pub cache_key : Key CacheKey
cache_key = record { beq = same_key; before = key_before; beq_iff = same_key_iff }

abbrev pub DecisionCache : Type 0
DecisionCache = Map CacheKey CachedDecision

-- `messages().at(0)` of a request with no messages stops the program.
pub key_of : List Message → Result CacheError CacheKey
key_of [] = throws no_messages
key_of (msg ∷ msgs) = ok (record { app_id = msg.app_id; size = length (msg ∷ msgs) })

unfoldable pub get_cache_key : BatchExecuteRequest → Result CacheError CacheKey
unfolding key_of
get_cache_key req = key_of req.messages

found_decision :
    BatchExecuteRequest → Option CachedDecision → Result CacheError (Option CachedDecision)
found_decision req none = ok none
found_decision req (some res) =
    if not (length res.hosts == length req.messages)
    then throws invalid_cached_decision
    else ok (some res)

-- The null pointer is `none`.
pub get_cached_decision :
    DecisionCache → BatchExecuteRequest → Result CacheError (Option CachedDecision)
unfolding get_cache_key found_decision
get_cached_decision cache req = get_cache_key req >>= λ key. found_decision req (lookup key cache)

pub add_cached_decision :
    DecisionCache → BatchExecuteRequest → SchedulingDecision → Result CacheError DecisionCache
unfolding get_cache_key
add_cached_decision cache req decision = get_cache_key req >>= λ key.
    if not (length req.messages == length decision.hosts)
    then throws invalid_decision_caching
    else ok (insert key (record { hosts = decision.hosts; group_id = decision.group_id }) cache)
