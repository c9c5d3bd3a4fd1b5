-- ===== src/TemplateStore.antt =====
-- internal/templatestore/kafka.go: templates in a compacted Kafka topic. The clients of franz-go are
-- parameters: what each call answers is an argument.
use Prim.Native.String.{String}
use text.Mathlib.Text.{◌==◌ as str_eq}
use netflow_collector.Base.{
  ℕ, zero, suc, ◌+◌, Bool, true, false, Option, none, some, List, [], ◌∷◌, ◌++◌, leb, if◌then◌else◌,
  Text,
}
use netflow_collector.Base.Int.{ℤ, pos, negsuc}
use netflow_collector.Base.Assoc.{lookup, delete, put}
pub mod Remaining
pub mod Synced

pub data StoreError : Type 0 where
  not_set : StoreError
  no_client : StoreError
  no_ping : StoreError
  no_topic : StoreError
  no_offsets : StoreError
  not_fetched : StoreError
  not_published : StoreError

-- How CreateTopic failed.
pub data TopicError : Type 0 where
  already_exists : TopicError
  other : TopicError

abbrev bad : Option TopicError → Bool
bad none = false
bad (some already_exists) = false
bad (some other) = true

-- `ensureCompacted`: the errors of the call and, if it succeeded, of its response.
unfoldable pub ensure_compacted : Option TopicError → Option TopicError → Option StoreError
ensure_compacted none response = if bad response then some no_topic else none
ensure_compacted (some e) response = if bad (some e) then some no_topic else none

-- `NewKafka`: whether the client was made and answered its ping, and how the topic was created.
unfoldable pub new_kafka :
    List String → String → Bool → Bool → Option TopicError → Option TopicError → Option StoreError
new_kafka [] topic client ping failed response = some not_set
new_kafka (b ∷ bs) topic client ping failed response =
    if str_eq topic ""
    then some not_set
    else if client
    then if ping then ensure_compacted failed response else some no_ping
    else some no_client

-- `Put`, where `produce` is ProduceSync with its first error.
unfoldable pub put_template :
    {S : Type 0} → (Text → Text → S → Bool × S) → Text → Text → S → Option StoreError × S
put_template produce key value s =
    let (published, after) = produce key value s in
    (if published then none else some not_published, after)

-- A record of the topic.
pub record StoredRecord : Type 0 where
  pub partition : ℕ
  pub offset : ℕ
  pub key : Text
  pub value : Text

-- One PollFetches: whether the context had ended after it, for each error whether it was a
-- cancellation, and the records.
pub record Fetches : Type 0 where
  pub ended : Bool
  pub canceled : List Bool
  pub records : List StoredRecord

abbrev pub all_canceled : List Bool → Bool
all_canceled [] = true
all_canceled (c ∷ cs) = let rest = all_canceled cs in if c then rest else false

-- The map `remaining`, the calls of `apply`, and how often `synced` was called.
pub record Watching : Type 0 where
  pub remaining : List (ℕ × ℕ)
  pub applied : List (Text × Text)
  pub synced : ℕ

abbrev pub none_left : List (ℕ × ℕ) → Bool
none_left [] = true
none_left (x ∷ xs) = false

unfoldable pub sync_if : Bool → Watching → Watching
sync_if b w = if b then record w { synced = suc w.synced } else w

-- An end offset, if it is positive, is what the partition must reach.
unfoldable pub remember_end : ℕ → ℤ → List (ℕ × ℕ) → List (ℕ × ℕ)
remember_end p (pos zero) m = m
remember_end p (pos (suc n)) m = put p (suc n) m
remember_end p (negsuc n) m = m

unfoldable pub remaining_of : List (ℕ × ℤ) → List (ℕ × ℕ) → List (ℕ × ℕ)
remaining_of [] m = m
remaining_of ((p, z) ∷ ends) m = remaining_of ends (remember_end p z m)

unfoldable pub begin : List (ℕ × ℤ) → Watching
unfolding remaining_of sync_if
begin ends =
    let m = remaining_of ends [] in
    sync_if (none_left m) (record { remaining = m; applied = []; synced = 0 })

-- The partition has reached its end, and is waited for no longer.
unfoldable pub finish : ℕ → Watching → Watching
unfolding sync_if
finish p w = let m = delete p w.remaining in sync_if (none_left m) (record w { remaining = m })

abbrev pub reach : StoredRecord → Watching → Option ℕ → Watching
reach r w none = w
reach r w (some n) = if leb n (r.offset + 1) then finish r.partition w else w

unfoldable pub take_stored : Watching → StoredRecord → Watching
take_stored w r =
    reach r (record w { applied = w.applied ++ ((r.key, r.value) ∷ []) })
      (lookup r.partition w.remaining)

unfoldable pub take_all : Watching → List StoredRecord → Watching
take_all w [] = w
take_all w (r ∷ rs) = take_all (take_stored w r) rs

pub data Outcome : Type 0 where
  polling : Outcome
  returned : Outcome
  failed : StoreError → Outcome

unfoldable pub poll_fetches : List Fetches → Watching → Outcome × Watching
poll_fetches [] w = (polling, w)
poll_fetches (p ∷ ps) w =
    let rest = poll_fetches ps (take_all w p.records) in
    if p.ended
    then (returned, w)
    else if all_canceled p.canceled
    then rest
    else (failed not_fetched, w)

-- `Watch`: whether the consumer was made, the end offsets if they could be listed, and the polls.
unfoldable pub watch : Bool → Option (List (ℕ × ℤ)) → List Fetches → Outcome × Watching
unfolding begin poll_fetches
watch false ends polls = (failed no_client, record { remaining = []; applied = []; synced = 0 })
watch true none polls = (failed no_offsets, record { remaining = []; applied = []; synced = 0 })
watch true (some ends) polls = poll_fetches polls (begin ends)
