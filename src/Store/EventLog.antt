-- ===== src/Store/EventLog.antt =====
-- The invariant that ties a record's snapshot, its projection columns and its rows of `events`.
use mathlib.Core.List.{append-nil}
use agentknot.Common.{
  >>=-eq-ok, Bool-cases, List, Option, Option-cases, String, [], ap, arith, drop, false, get_or,
  if◌then◌else◌, inl, inr, length, lookup, lookup-put, none, ok, put, refl, some, subst, sym,
  text_eq, text_eq_iff, text_eq_refl, text_key, ℕ, ◌++◌, ◌+◌, ◌<◌, ◌∙◌, ◌≡◌, ◌≤◌,
}
use agentknot.Store.Numbering.{
  Numbered, Numbered-append, Numbered-assert_events, assert_append_only-prefix, insert_suffix,
  keep-after_cursor,
}
use agentknot.Store.Records.{events_after, get, insert_new, parse, write_snapshot}
use agentknot.Store.Sql.{
  Database, RecordRow, event_rows, insert_events, insert_row, select_events, update_record,
}
use agentknot.Store.Types.{
  Store, StoredEvent, StoredRecord, assert_append_only, assert_events, assert_open, attach_revision,
  materialize_version, max_safe_integer, serialize_bounded,
}

pub record IsLogged (db : Database) (id : String) (row : RecordRow) : Type 0 where
  pub named : row.record_json.id ≡ id
  pub versioned : row.record_json.schema_version ≡ some 1
  pub numbered : Numbered 0 row.record_json.events
  pub projected : row.event_sequence ≡ length row.record_json.events
  pub logged : event_rows id db ≡ row.record_json.events
  pub revised : 0 < row.revision

abbrev pub RowIsLogged : Database → String → Option RecordRow → Type 0
RowIsLogged db id none = event_rows id db ≡ []
RowIsLogged db id (some row) = IsLogged db id row

-- Every record has its events, numbered from 1, in `events`, and no others stand there.
abbrev pub IsWellFormed : Database → Type 0
IsWellFormed db = (id : String) → RowIsLogged db id (lookup id db.records)

-- The log of each record goes on from where it stood.
abbrev pub LogGrows : Database → Database → Type 0
LogGrows db db' =
    (id : String) → (more : List StoredEvent) × (event_rows id db' ≡ event_rows id db ++ more)

pub parse-eq :
    (db : Database) (id : String) (row : RecordRow)
    → IsLogged db id row
    → parse row ≡ ok (attach_revision row.record_json row.revision)
unfolding parse materialize_version assert_events
parse-eq db id row v = ground (arith, Numbered-assert_events 0 row.record_json.events v.numbered)

-- For a record of a well-formed database, an open store and a cursor that is a safe integer:
-- `eventsAfter` returns the events of the snapshot behind the cursor, in order, each once, and `get`
-- returns that snapshot under its revision.
pub events_after_lem :
    (s : Store) (db : Database) (id : String) (row : RecordRow) (cursor : ℕ)
    → s.closed ≡ false
    → cursor ≤ max_safe_integer
    → IsWellFormed db
    → lookup id db.records ≡ some row
    → (events_after s id cursor db ≡ ok (drop cursor row.record_json.events))
      × (get s id db ≡ ok (some (attach_revision row.record_json row.revision)))
unfolding events_after get select_events assert_open
events_after_lem s db id row cursor opened small wf e =
    let v : IsLogged db id row = subst (RowIsLogged db id) e (wf id) in
    (
      ground (
        arith,
        keep-after_cursor cursor 0 cursor row.record_json.events (omega arith) v.numbered,
        v.logged,
      ),
      ground (arith, parse-eq db id row v),
    )

pub RowIsLogged-same :
    (db db' : Database) (id : String) (o : Option RecordRow)
    → event_rows id db' ≡ event_rows id db
    → RowIsLogged db id o
    → RowIsLogged db' id o
RowIsLogged-same db db' id none e v = e ∙ v
RowIsLogged-same db db' id (some row) e v = record {
  named = v.named;
  versioned = v.versioned;
  numbered = v.numbered;
  projected = v.projected;
  logged = e ∙ v.logged;
  revised = v.revised;
}

-- A write of one record's row and events leaves the others as they were.
module _ (id : String) (row : RecordRow) (rows : List StoredEvent) (db db' : Database)
    (e : db'.records ≡ put id row db.records) (f : db'.events ≡ put id rows db.events) where
  write-event_rows :
      (j : String) → event_rows j db' ≡ (if text_eq id j then rows else event_rows j db)
  write-event_rows j = ground (arith, lookup-put id j rows db.events)

  write-RowIsLogged :
      (j : String)
      → IsLogged db' id row
      → IsWellFormed db
      → RowIsLogged db' j (lookup j db'.records)
  write-RowIsLogged j v wf = elim (Bool-cases (text_eq id j)) [
    | inl same ↦
        let found : lookup j db'.records ≡ some row =
          ap (lookup j) e ∙ lookup-put id j row db.records ∙ (rw same) in
        subst (RowIsLogged db' j) (sym found)
          (subst (λ k. IsLogged db' k row) ((text_eq_iff id j).0 same) v)
    | inr other ↦
        let found : lookup j db'.records ≡ lookup j db.records =
          ap (lookup j) e ∙ lookup-put id j row db.records ∙ (rw other) in
        let kept : event_rows j db' ≡ event_rows j db = write-event_rows j ∙ (rw other) in
        subst (RowIsLogged db' j) (sym found) (RowIsLogged-same db db' j _ kept (wf j))
  ]

  write-LogGrows : (more : List StoredEvent) → rows ≡ event_rows id db ++ more → LogGrows db db'
  write-LogGrows more g j = elim (Bool-cases (text_eq id j)) [
    | inl same ↦ (more, ground (arith, write-event_rows j, (text_eq_iff id j).0 same))
    | inr other ↦ ([], ground (arith, write-event_rows j, append-nil (event_rows j db)))
  ]

abbrev pub LogMoves : Database → Database → Type 0
LogMoves db db' = IsWellFormed db' × LogGrows db db'

pub insert_new-LogMoves :
    (s : Store) (r : StoredRecord) (db db' : Database)
    → r.schema_version ≡ some 1
    → Numbered 0 r.events
    → insert_new s r db ≡ ok db'
    → IsWellFormed db
    → LogMoves db db'
unfolding insert_new insert_row serialize_bounded
insert_new-LogMoves s r db db' ver num h wf = elim (Option-cases (lookup r.id db.records)) [
  | inr (old, e) ↦ absurd (ground arith)
  | inl e ↦
      let bare : event_rows r.id db ≡ [] = subst (RowIsLogged db r.id) e (wf r.id) in
      let row : RecordRow = record {
        created_at = r.created_at;
        updated_at = get_or r.updated_at r.created_at;
        revision = 1;
        event_sequence = length r.events;
        record_json = record r { revision = none };
      } in
      let added : insert_events r.events (event_rows r.id db) ≡ ok r.events =
        rw bare (insert_suffix r.events [] tt num) in
      let e₁ : db'.records ≡ put r.id row db.records = ground arith in
      let e₂ : db'.events ≡ put r.id r.events db.events = ground arith in
      let logged : event_rows r.id db' ≡ r.events =
        write-event_rows r.id row r.events db db' e₁ e₂ r.id ∙ (rw (text_eq_refl r.id)) in
      (
        λ j.
            write-RowIsLogged r.id row r.events db db' e₁ e₂ j
              (record {
                named = refl;
                versioned = ver;
                numbered = num;
                projected = refl;
                logged = logged;
                revised = omega arith;
              })
              wf,
        write-LogGrows r.id row r.events db db' e₁ e₂ r.events (rw bare refl),
      )
]

-- A snapshot written over a logged one.
pub write_snapshot-LogMoves :
    (s : Store) (previous next : StoredRecord) (expected : ℕ) (row : RecordRow) (db db' : Database)
    → next.schema_version ≡ some 1
    → Numbered 0 next.events
    → lookup next.id db.records ≡ some row
    → previous.events ≡ row.record_json.events
    → write_snapshot s previous next expected db ≡ ok db'
    → IsWellFormed db
    → LogMoves db db'
unfolding write_snapshot update_record serialize_bounded
write_snapshot-LogMoves s previous next expected row db db' ver num found parsed h wf =
    let v : IsLogged db next.id row = subst (RowIsLogged db next.id) found (wf next.id) in
    let (_, prefix, h₁) = >>=-eq-ok (assert_append_only previous.events next.events) _ h in
    let more : List StoredEvent = drop (length previous.events) next.events in
    let split : next.events ≡ previous.events ++ more =
      assert_append_only-prefix previous.events next.events prefix in
    let old : event_rows next.id db ≡ previous.events = v.logged ∙ sym parsed in
    let parts = Numbered-append 0 previous.events more (subst (Numbered 0) split num) in
    let added : insert_events more (event_rows next.id db) ≡ ok next.events = rw old (
      insert_suffix more previous.events parts.0
        (subst (λ k. Numbered k more) (omega arith) parts.1)
      ∙ ap ok (sym split)) in
    let row' : RecordRow = record row {
      updated_at = get_or next.updated_at next.created_at;
      revision = row.revision + 1;
      event_sequence = length next.events;
      record_json = record next { revision = none };
    } in
    let e₁ : db'.records ≡ put next.id row' db.records = ground arith in
    let e₂ : db'.events ≡ put next.id next.events db.events = ground arith in
    let logged : event_rows next.id db' ≡ next.events =
      write-event_rows next.id row' next.events db db' e₁ e₂ next.id
      ∙ (rw (text_eq_refl next.id)) in
    (
      λ j.
          write-RowIsLogged next.id row' next.events db db' e₁ e₂ j
            (record {
              named = refl;
              versioned = ver;
              numbered = num;
              projected = refl;
              logged = logged;
              revised = omega arith;
            })
            wf,
      write-LogGrows next.id row' next.events db db' e₁ e₂ more (rw old split),
    )
