-- ===== src/Subscription/Endings.antt =====
-- Where a subscription of src/durable-subscription.ts ends.
use agentknot.Common.{
  >>=-eq-ok, Bool, Bool-cases, List, Option, Option-cases, String, [], ap, arith, false, get_elem?,
  inl, inr, length, lookup, ok, refl, some, subst, suc, sym, text_key, true, ℕ, ◌+◌, ◌∙◌, ◌∷◌, ◌≡◌,
  ◌≤◌,
}
use agentknot.Store.EventLog.{IsLogged, IsWellFormed, RowIsLogged, parse-eq}
use agentknot.Store.History.{Reach-LogMoves}
use agentknot.Store.Numbering.{Numbered}
use agentknot.Store.Records.{get}
use agentknot.Store.Sql.{Database, event_rows}
use agentknot.Store.Types.{Store, StoredEvent, StoredRecord, assert_open, attach_revision}
use agentknot.Subscription.Delivery.{Follows, round_sends}
use agentknot.Subscription.Exact.{longer}
use agentknot.Subscription.Rounds.{Settled, round_cases}
use agentknot.Subscription.Subscribe.{
  Delivered, Ending, Round, finished, last_sequence, ongoing, subscribe_rounds, threw_abort,
}

last_sequence-Numbered :
    (n : ℕ) (e : StoredEvent) (es : List StoredEvent)
    → Numbered n (e ∷ es)
    → last_sequence (e ∷ es) ≡ n + length (e ∷ es)
unfolding last_sequence
last_sequence-Numbered n e [] (same, rest) = ground (arith, same)
last_sequence-Numbered n e (f ∷ es) (same, rest) =
    ground (arith, last_sequence-Numbered (suc n) f es rest)

last_sequence-length : (es : List StoredEvent) → Numbered 0 es → last_sequence es ≡ length es
unfolding last_sequence
last_sequence-length [] numbered = refl
last_sequence-length (e ∷ es) numbered = ground (arith, last_sequence-Numbered 0 e es numbered)

-- A record that may end a subscription at a cursor has no event behind it.
Settled-rows :
    (s : Store) (is_final : StoredRecord → Bool) (id : String) (cursor : ℕ) (db : Database)
    (got : Option StoredRecord)
    → IsWellFormed db
    → get s id db ≡ ok got
    → Settled is_final got cursor
    → length (event_rows id db) ≤ cursor
unfolding get
Settled-rows s is_final id cursor db got wf g settled =
    let (u, _, h) = >>=-eq-ok (assert_open s) _ g in
    elim (Option-cases (lookup id db.records)) [
      | inl absent ↦
          let none_there : event_rows id db ≡ [] = subst (RowIsLogged db id) absent (wf id) in
          ground (arith, none_there)
      | inr (row, there) ↦
          let v : IsLogged db id row = subst (RowIsLogged db id) there (wf id) in
          let read_back = parse-eq db id row v in
          let is : some (attach_revision row.record_json row.revision) ≡ got =
            ground (arith, h, there, read_back) in
          let reached =
            subst (λ (o : Option StoredRecord). Settled is_final o cursor) (sym is) settled in
          let last = last_sequence-length row.record_json.events v.numbered in
          let logged = v.logged in unfold attach_revision in ground (arith, reached.1, last, logged)
    ]

-- A round that finds the signal not aborted, and a record that is there, and that is not final or has
-- events behind those that were read.
abbrev pub IsOpen : Store → (StoredRecord → Bool) → String → Round → Type 0
IsOpen s is_final id round =
    (round.aborted ≡ false)
    × ((got : Option StoredRecord) × (get s id round.at_get ≡ ok got)
        × (¬ Settled is_final got (length (event_rows id round.at_events))))

abbrev pub AreOpen : Store → (StoredRecord → Bool) → String → List Round → Type 0
AreOpen s is_final id [] = Unit
AreOpen s is_final id (round ∷ rounds) = IsOpen s is_final id round × AreOpen s is_final id rounds

-- The rounds of a subscription, for each ending: it returned where its cursor was the end of the log
-- and the record was gone or final, it threw where the signal was aborted, or it goes on, since each
-- round was open.
abbrev pub EndsAs : Store → (StoredRecord → Bool) → String → List Round → ℕ → Ending → Type 0
EndsAs s is_final id rounds cursor finished =
    (k : ℕ) × (round : Round) × (get_elem? rounds k ≡ some round)
    × (cursor ≡ length (event_rows id round.at_get))
    × ((got : Option StoredRecord) × (get s id round.at_get ≡ ok got) × Settled is_final got cursor)
EndsAs s is_final id rounds cursor threw_abort =
    (k : ℕ) × (round : Round) × (get_elem? rounds k ≡ some round) × (round.aborted ≡ true)
EndsAs s is_final id rounds cursor ongoing = AreOpen s is_final id rounds

EndsAs-later :
    (s : Store) (is_final : StoredRecord → Bool) (id : String) (round : Round) (rounds : List Round)
    (cursor : ℕ) (ending : Ending)
    → IsOpen s is_final id round
    → EndsAs s is_final id rounds cursor ending
    → EndsAs s is_final id (round ∷ rounds) cursor ending
EndsAs-later s is_final id round rounds cursor finished on_it (k, r, there, at, halts) =
    (suc k, r, there, at, halts)
EndsAs-later s is_final id round rounds cursor threw_abort on_it (k, r, there, off_it) =
    (suc k, r, there, off_it)
EndsAs-later s is_final id round rounds cursor ongoing on_it others = (on_it, others)

pub delivered-EndsAs :
    (bound : ℕ) (s : Store) (is_final : StoredRecord → Bool) (id : String) (cursor : ℕ)
    (db : Database) (rounds : List Round) (d : Delivered)
    → IsWellFormed db
    → Follows bound db rounds
    → cursor ≤ length (event_rows id db)
    → subscribe_rounds s is_final id cursor rounds ≡ ok d
    → EndsAs s is_final id rounds d.cursor d.ending
unfolding subscribe_rounds
delivered-EndsAs bound s is_final id cursor db [] d wf f small h =
    let none_sent : Delivered = record { events = []; cursor = cursor; ending = ongoing } in
    let is : none_sent ≡ d = ground (arith, h) in
    subst (λ (x : Delivered). EndsAs s is_final id [] x.cursor x.ending) is tt
delivered-EndsAs bound s is_final id cursor db (round ∷ rounds) d wf (r, q, f) small h =
    let (wf₁, g₁) = Reach-LogMoves r wf in
    let (wf₂, g₂) = Reach-LogMoves q wf₁ in
    let (xs, e₁) = g₁ id in
    let (ys, e₂) = g₂ id in
    let rows = event_rows id round.at_events in
    let small₁ : cursor ≤ length rows = longer cursor _ rows xs small e₁ in
    let grown : length rows ≤ length (event_rows id round.at_get) =
      longer (length rows) rows _ ys (omega arith) e₂ in
    elim (Bool-cases round.aborted) [
      | inl off_it ↦
          let thrown : Delivered = record { events = []; cursor = cursor; ending = threw_abort } in
          let is : thrown ≡ d = ground (arith, h, off_it) in
          subst (λ (x : Delivered). EndsAs s is_final id (round ∷ rounds) x.cursor x.ending) is
            (0, round, refl, off_it)
      | inr on_it ↦
          let (es, e, cases) = round_cases s is_final id cursor round rounds d on_it h in
          let sent = round_sends s id cursor round.at_events es wf₁ small₁ e in
          elim cases [
            | inl (is, (got, g, settled)) ↦
                let at : d.cursor ≡ length rows = ap (λ x. x.cursor) is ∙ ap (λ x. x.1) sent in
                let reached =
                  Settled-rows s is_final id _ round.at_get got wf₂ g
                    (subst (Settled is_final got) (ap (λ x. x.1) sent) settled) in
                subst (λ (x : Ending). EndsAs s is_final id (round ∷ rounds) d.cursor x)
                  (sym (ap (λ x. x.ending) is))
                  (
                    0,
                    round,
                    refl,
                    omega (arith, at, grown, reached),
                    (got, g, subst (Settled is_final got) (sym (ap (λ x. x.cursor) is)) settled),
                  )
            | inr (x, went, is, (got, g, open_yet)) ↦
                let on : subscribe_rounds s is_final id (length rows) rounds ≡ ok x =
                  subst (λ k. subscribe_rounds s is_final id k rounds ≡ ok x) (ap (λ k. k.1) sent)
                    went in
                let round_open : IsOpen s is_final id round = (
                  on_it,
                  (got, g, subst (λ k. ¬ Settled is_final got k) (ap (λ k. k.1) sent) open_yet),
                ) in
                let later =
                  delivered-EndsAs bound s is_final id (length rows) round.at_get rounds x wf₂ f
                    grown on in
                subst (λ (x : Delivered). EndsAs s is_final id (round ∷ rounds) x.cursor x.ending)
                  (sym is)
                  (EndsAs-later s is_final id round rounds x.cursor x.ending round_open later)
          ]
    ]
