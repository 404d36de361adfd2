-- ===== src/Subscription/Subscribe.antt =====
-- `subscribe` of src/durable-subscription.ts over the durable record store.
use agentknot.Common.{
  Bool, List, Option, Result, String, [], guard, if◌then◌else◌, leb, none, ok, some, ℕ, ◌&&◌, ◌++◌,
  ◌>>=◌, ◌>>◌, ◌∷◌,
}
use agentknot.Ledger.Services.{found}
use agentknot.Store.Records.{events_after, get}
use agentknot.Store.Sql.{Database}
use agentknot.Store.Types.{
  Store, StoreError, StoredEvent, StoredRecord, invalid_argument, max_safe_integer,
}

-- One round of the loop: whether the signal was aborted, and the database as `eventsAfter` and as
-- `get` find it. When the next round comes, a notification or the refresh interval decides.
pub record Round : Type 0 where
  pub aborted : Bool
  pub at_events : Database
  pub at_get : Database

-- How a subscription stands after its rounds: it returned, it threw the error of its aborted signal
-- after the events that it had sent, or it goes on.
pub data Ending : Type 0 where
  finished threw_abort ongoing : Ending

pub record Delivered : Type 0 where
  pub events : List StoredEvent
  pub cursor : ℕ
  pub ending : Ending

unfoldable pub validate_sequence : ℕ → Result StoreError (Unit {0})
validate_sequence sequence = guard (leb sequence max_safe_integer) invalid_argument

-- The loop over the events of one round, with the cursor that it leaves.
unfoldable pub deliver : ℕ → List StoredEvent → List StoredEvent × ℕ
deliver cursor [] = ([], cursor)
deliver cursor (e ∷ es) =
    let skipped = deliver cursor es in
    let rest = deliver e.sequence es in
    if leb e.sequence cursor then skipped else (e ∷ rest.0, rest.1)

-- `events.at(-1)?.sequence ?? 0`
unfoldable pub last_sequence : List StoredEvent → ℕ
last_sequence [] = 0
last_sequence (e ∷ []) = e.sequence
last_sequence (e ∷ f ∷ es) = last_sequence (f ∷ es)

abbrev pub before : List StoredEvent → Delivered → Delivered
before es rest = record rest { events = es ++ rest.events }

-- The end of a round: the subscription returns, or goes on with the rounds that are left.
unfoldable pub settle :
    (StoredRecord → Bool)
    → List StoredEvent × ℕ
    → Result StoreError Delivered
    → Option StoredRecord
    → Result StoreError Delivered
settle is_final sent rest none = ok (record { events = sent.0; cursor = sent.1; ending = finished })
settle is_final sent rest (some r) =
    if is_final r && leb (last_sequence r.events) sent.1
    then ok (record { events = sent.0; cursor = sent.1; ending = finished })
    else (rest >>= λ delivered. ok (before sent.0 delivered))

unfoldable pub subscribe_rounds :
    Store → (StoredRecord → Bool) → String → ℕ → List Round → Result StoreError Delivered
subscribe_rounds s is_final id cursor [] =
    ok (record { events = []; cursor = cursor; ending = ongoing })
subscribe_rounds s is_final id cursor (round ∷ rounds) =
    if round.aborted
    then ok (record { events = []; cursor = cursor; ending = threw_abort })
    else (do
      validate_sequence cursor
      events ← events_after s id cursor round.at_events
      let sent = deliver cursor events
      found ← get s id round.at_get
      let rest = subscribe_rounds s is_final id sent.1 rounds
      settle is_final sent rest found)
