-- ===== src/Scheduler/Cache/Laws.antt =====
-- src/batch-scheduler/DecisionCache.cpp: lookups after insertions.
use faabric.Prelude.{
  ℕ, ◌≡◌, refl, sym, ap, ◌∙◌, inl, inr, Bool, true, false, not, Option, none, some, List, [], ◌∷◌,
  arith, length, ◌==◌, if◌then◌else◌, Bool-cases,
}
use faabric.Prelude.Maps.{lookup, insert, lookup-insert}
use faabric.Prelude.Results.{ok, throws, ◌>>=◌}
use faabric.Batch.{BatchExecuteRequest, Message}
use faabric.Scheduler.Decision.{SchedulingDecision}
use faabric.Scheduler.Cache.{
  CachedDecision, CacheKey, DecisionCache, cache_key, same_key, key_of, invalid_decision_caching,
  get_cache_key, found_decision, get_cached_decision, add_cached_decision,
}

-- Each decision has as many hosts as its key says.
abbrev pub WellSized : DecisionCache → Type 0
WellSized cache =
    (key : CacheKey) (res : CachedDecision)
    → lookup key cache ≡ some res
    → length res.hosts ≡ key.size

key_of-size : (msgs : List Message) (key : CacheKey) → key_of msgs ≡ ok key → key.size ≡ length msgs
unfolding key_of
key_of-size [] key e = absurd (cc)
key_of-size (msg ∷ msgs) key e = ground (arith, e)

same_length_lem : (a b : ℕ) → a ≡ b → not (a == b) ≡ false
same_length_lem a b e = ground (arith, e)

get_lem :
    (cache : DecisionCache) (req : BatchExecuteRequest) (key : CacheKey)
    → get_cache_key req ≡ ok key
    → get_cached_decision cache req ≡ found_decision req (lookup key cache)
unfolding get_cached_decision
get_lem cache req key e = ap (λ r. r >>= λ k. found_decision req (lookup k cache)) e

abbrev size_of : Option CachedDecision → ℕ
size_of none = 0
size_of (some res) = length res.hosts

insert-sized :
    (key : CacheKey) (entry : CachedDecision) (cache : DecisionCache) (k : CacheKey)
    (res : CachedDecision)
    → length entry.hosts ≡ key.size
    → (lookup k cache ≡ some res → length res.hosts ≡ k.size)
    → (if same_key key k then some entry else lookup k cache) ≡ some res
    → length res.hosts ≡ k.size
insert-sized key entry cache k res sized w h = elim (Bool-cases (same_key key k)) [
  | inl s ↦ omega (
    arith,
    sized,
    ap (λ j. j.size) ((cache_key.beq_iff key k).0 s),
    ap size_of (choice (sym s) ∙ h),
  )
  | inr n ↦ w (choice (sym n) ∙ h)
]
  where
    choice :
        {b : Bool}
        → b ≡ same_key key k
        → (if b then some entry else lookup k cache)
          ≡ (if same_key key k then some entry else lookup k cache)
    choice e = ap (λ b. if b then some entry else lookup k cache) e

-- On a cache whose decisions have the sizes of their keys, caching a decision with one host for each
-- message of a request works; the cache keeps such sizes, and a request that is then looked up
-- gives the new decision if it has the same key, and else what it gave before.
pub get_cached_decision-add_cached_decision :
    (cache : DecisionCache) (req other : BatchExecuteRequest) (decision : SchedulingDecision)
    (key other_key : CacheKey)
    → WellSized cache
    → get_cache_key req ≡ ok key
    → get_cache_key other ≡ ok other_key
    → length req.messages ≡ length decision.hosts
    → (cache' : DecisionCache) × (add_cached_decision cache req decision ≡ ok cache')
      × WellSized cache'
      × (get_cached_decision cache' other ≡ (
          if same_key key other_key
          then ok (some (record { hosts = decision.hosts; group_id = decision.group_id }))
          else get_cached_decision cache other))
get_cached_decision-add_cached_decision cache req other decision key other_key w e f sized =
    (insert key entry cache, added, kept, found)
  where
    entry : CachedDecision
    entry = record { hosts = decision.hosts; group_id = decision.group_id }

    added : add_cached_decision cache req decision ≡ ok (insert key entry cache)
    added =
        unfold add_cached_decision in
        ap
          (λ r. r >>= λ k.
            if not (length req.messages == length decision.hosts)
            then throws invalid_decision_caching
            else ok (insert k entry cache))
          e
        ∙ rw (same_length_lem (length req.messages) (length decision.hosts) sized) refl

    entry_size : length decision.hosts ≡ key.size
    entry_size = omega (arith, sized, key_of-size req.messages key (unfold get_cache_key in e))

    kept : WellSized (insert key entry cache)
    kept k res h =
        insert-sized key entry cache k res entry_size (w k res)
          (sym (lookup-insert key k entry cache) ∙ h)

    fits : same_key key other_key ≡ true → found_decision other (some entry) ≡ ok (some entry)
    fits s =
        unfold found_decision in
        rw
          (same_length_lem (length decision.hosts) (length other.messages) (
            omega (
              arith,
              entry_size,
              ap (λ k. k.size) ((cache_key.beq_iff key other_key).0 s),
              key_of-size other.messages other_key (unfold get_cache_key in f),
            )))
          refl

    found :
        get_cached_decision (insert key entry cache) other
        ≡ (if same_key key other_key then ok (some entry) else get_cached_decision cache other)
    found =
        get_lem (insert key entry cache) other other_key f
        ∙ ap (found_decision other) (lookup-insert key other_key entry cache)
        ∙ elim (Bool-cases (same_key key other_key)) [
          | inl s ↦ rw s (fits s)
          | inr n ↦ rw n (sym (get_lem cache other other_key f))
        ]
