-- ===== src/Subscription/Total.antt =====
-- A subscription of src/durable-subscription.ts to an open store throws nothing.
use agentknot.Common.{
  Bool, Bool-cases, List, Option, Option-cases, Result, String, [], ap, arith, false, inl, inr, leb,
  length, lookup, none, ok, refl, some, subst, sym, text_key, ℕ, ◌&&◌, ◌∷◌, ◌≡◌, ◌≤◌,
}
use agentknot.Ledger.Services.{found}
use agentknot.Store.EventLog.{IsLogged, IsWellFormed, RowIsLogged, parse-eq}
use agentknot.Store.History.{Reach-LogMoves}
use agentknot.Store.Records.{events_after, get}
use agentknot.Store.Sql.{Database, event_rows, select_events}
use agentknot.Store.Types.{
  Store, StoreError, StoredEvent, StoredRecord, assert_open, attach_revision, max_safe_integer,
}
use agentknot.Subscription.Delivery.{Follows, Follows-grows, final_database, round_sends}
use agentknot.Subscription.Endings.{EndsAs, delivered-EndsAs}
use agentknot.Subscription.Exact.{IsExact, longer}
use agentknot.Subscription.Rounds.{delivered-IsExact}
use agentknot.Subscription.Subscribe.{
  Delivered, Round, before, deliver, finished, last_sequence, ongoing, settle, subscribe_rounds,
  threw_abort, validate_sequence,
}

get-total :
    (s : Store) (id : String) (db : Database)
    → s.closed ≡ false
    → IsWellFormed db
    → (found : Option StoredRecord) × (get s id db ≡ ok found)
unfolding get assert_open
get-total s id db opened wf = elim (Option-cases (lookup id db.records)) [
  | inl absent ↦ (none, ground arith)
  | inr (row, there) ↦
      let v : IsLogged db id row = subst (RowIsLogged db id) there (wf id) in
      (some (attach_revision row.record_json row.revision), ground (arith, parse-eq db id row v))
]

settle-total :
    (is_final : StoredRecord → Bool) (sent : List StoredEvent × ℕ)
    (rest : Result StoreError Delivered) (x : Delivered) (found : Option StoredRecord)
    → rest ≡ ok x
    → (d : Delivered) × (settle is_final sent rest found ≡ ok d)
unfolding settle
settle-total is_final sent rest x none h =
    (record { events = sent.0; cursor = sent.1; ending = finished }, refl)
settle-total is_final sent rest x (some r) h =
    elim (Bool-cases (is_final r && leb (last_sequence r.events) sent.1)) [
      | inl halts ↦ (record { events = sent.0; cursor = sent.1; ending = finished }, ground arith)
      | inr goes ↦ (before sent.0 x, ground arith)
    ]

events_after-total :
    (s : Store) (id : String) (cursor : ℕ) (db : Database)
    → s.closed ≡ false
    → cursor ≤ max_safe_integer
    → events_after s id cursor db ≡ ok (select_events id cursor db)
unfolding events_after assert_open
events_after-total s id cursor db opened small = ground arith

going_round :
    (s : Store) (is_final : StoredRecord → Bool) (id : String) (cursor : ℕ) (round : Round)
    (rounds : List Round) (found : Option StoredRecord) (es : List StoredEvent) (d : Delivered)
    → round.aborted ≡ false
    → cursor ≤ max_safe_integer
    → events_after s id cursor round.at_events ≡ ok es
    → get s id round.at_get ≡ ok found
    → settle is_final
        (deliver cursor es)
        (subscribe_rounds s is_final id (deliver cursor es).1 rounds)
        found
      ≡ ok d
    → subscribe_rounds s is_final id cursor (round ∷ rounds) ≡ ok d
unfolding subscribe_rounds validate_sequence
going_round s is_final id cursor round rounds found es d goes small e g h = ground arith

total :
    (bound : ℕ) (s : Store) (is_final : StoredRecord → Bool) (id : String) (cursor : ℕ)
    (db : Database) (rounds : List Round)
    → s.closed ≡ false
    → IsWellFormed db
    → Follows bound db rounds
    → cursor ≤ length (event_rows id db)
    → length (event_rows id (final_database db rounds)) ≤ max_safe_integer
    → (d : Delivered) × (subscribe_rounds s is_final id cursor rounds ≡ ok d)
unfolding subscribe_rounds
total bound s is_final id cursor db [] opened wf f small safe =
    (record { events = []; cursor = cursor; ending = ongoing }, refl)
total bound s is_final id cursor db (round ∷ rounds) opened wf (r, q, f) small safe =
    let (wf₁, g₁) = Reach-LogMoves r wf in
    let (wf₂, g₂) = Reach-LogMoves q wf₁ in
    let (xs, e₁) = g₁ id in
    let (ys, e₂) = g₂ id in
    let (zs, e₃) = Follows-grows bound id round.at_get rounds wf₂ f in
    let rows = event_rows id round.at_events in
    let small₁ : cursor ≤ length rows = longer cursor _ rows xs small e₁ in
    let small₂ : length rows ≤ length (event_rows id round.at_get) =
      longer (length rows) rows _ ys (omega arith) e₂ in
    let small₃ = longer (length rows) _ _ zs small₂ e₃ in
    elim (Bool-cases round.aborted) [
      | inl stops ↦
          (record { events = []; cursor = cursor; ending = threw_abort }, ground (arith, stops))
      | inr goes ↦
          let safe₁ : cursor ≤ max_safe_integer = omega (arith, small₁, small₃, safe) in
          let e = events_after-total s id cursor round.at_events opened safe₁ in
          let (found, g) = get-total s id round.at_get opened wf₂ in
          let sent = round_sends s id cursor round.at_events _ wf₁ small₁ e in
          let (x, on) =
            total bound s is_final id (length rows) round.at_get rounds opened wf₂ f small₂ safe in
          let there : subscribe_rounds s is_final id
                (deliver cursor (select_events id cursor round.at_events)).1 rounds
              ≡ ok x =
            subst (λ k. subscribe_rounds s is_final id k rounds ≡ ok x) (sym (ap (λ k. k.1) sent))
              on in
          let (d, halts) = settle-total is_final _ _ x found there in
          (d, going_round s is_final id cursor round rounds found _ d goes safe₁ e g halts)
    ]

-- However the rounds fall between the calls of others, a subscription to an open store, from a cursor
-- within the log, throws nothing but the error of an aborted signal, as long as the log is not longer
-- than the largest safe integer. It sends events behind the cursor, in order, each exactly once: what
-- it has sent is the part of the log from its first cursor to its last. It returns only in a round in
-- which its last cursor is the end of the log and the record is gone or final, throws only in a round
-- that finds the signal aborted, and goes on only if every round finds neither of these: the record is
-- there, and is not final or has events behind those that the round read.
pub subscribe_rounds-IsExact :
    (bound : ℕ) (s : Store) (is_final : StoredRecord → Bool) (id : String) (cursor : ℕ)
    (db : Database) (rounds : List Round)
    → s.closed ≡ false
    → IsWellFormed db
    → Follows bound db rounds
    → cursor ≤ length (event_rows id db)
    → length (event_rows id (final_database db rounds)) ≤ max_safe_integer
    → (d : Delivered) × (subscribe_rounds s is_final id cursor rounds ≡ ok d)
      × IsExact (event_rows id (final_database db rounds)) cursor d
      × EndsAs s is_final id rounds d.cursor d.ending
subscribe_rounds-IsExact bound s is_final id cursor db rounds opened wf f small safe =
    let (d, h) = total bound s is_final id cursor db rounds opened wf f small safe in
    let (low, high, same) = delivered-IsExact bound s is_final id cursor db rounds d wf f small h in
    (d, h, (low, high, same), delivered-EndsAs bound s is_final id cursor db rounds d wf f small h)
