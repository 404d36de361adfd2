-- ===== src/Subscription/Rounds.antt =====
-- The rounds of a subscription of src/durable-subscription.ts, one after the other.
use mathlib.Core.List.{append_assoc}
use agentknot.Common.{
  >>=-eq-ok, Bool, Bool-cases, List, Option, Result, String, [], ap, arith, false, inl, inr, leb,
  length, none, ok, some, subst, true, ℕ, ◌&&◌, ◌++◌, ◌∙◌, ◌∷◌, ◌≡◌, ◌≤◌, ◌⊎◌,
}
use agentknot.Ledger.Services.{found}
use agentknot.Store.EventLog.{IsWellFormed}
use agentknot.Store.History.{Reach-LogMoves}
use agentknot.Store.Records.{events_after, get}
use agentknot.Store.Sql.{Database, event_rows}
use agentknot.Store.Types.{Store, StoreError, StoredEvent, StoredRecord}
use agentknot.Subscription.Delivery.{Follows, Follows-grows, final_database, round_sends}
use agentknot.Subscription.Exact.{IsExact, joined-IsExact, longer, nothing_sent, sent-IsExact}
use agentknot.Subscription.Subscribe.{
  Delivered, Round, before, deliver, finished, last_sequence, settle, subscribe_rounds,
  validate_sequence,
}

-- Where a subscription may return: the record is gone, or final with no event behind the cursor.
abbrev pub Settled : (StoredRecord → Bool) → Option StoredRecord → ℕ → Type 0
Settled is_final none cursor = Unit
Settled is_final (some r) cursor = (is_final r ≡ true) × (last_sequence r.events ≤ cursor)

settle-cases :
    (is_final : StoredRecord → Bool) (sent : List StoredEvent × ℕ)
    (rest : Result StoreError Delivered) (found : Option StoredRecord) (d : Delivered)
    → settle is_final sent rest found ≡ ok d
    → ((d ≡ record { events = sent.0; cursor = sent.1; ending = finished })
        × Settled is_final found sent.1)
      ⊎ ((x : Delivered) × (rest ≡ ok x)
          × (d ≡ before sent.0 x)
          × (¬ Settled is_final found sent.1))
unfolding settle
settle-cases is_final sent rest none d h = inl (ground arith, tt)
settle-cases is_final sent rest (some r) d h =
    elim (Bool-cases (is_final r && leb (last_sequence r.events) sent.1)) [
      | inl halts ↦ inl (ground arith, (ground arith, ground arith))
      | inr goes ↦
          let (x, e, h₁) = >>=-eq-ok rest _ (rw goes at h) in
          inr (
            x,
            e,
            ground arith,
            λ settled.
                let (final, reached) = settled in absurd (ground (arith, goes, final, reached)),
          )
    ]

pub round_cases :
    (s : Store) (is_final : StoredRecord → Bool) (id : String) (cursor : ℕ) (round : Round)
    (rounds : List Round) (d : Delivered)
    → round.aborted ≡ false
    → subscribe_rounds s is_final id cursor (round ∷ rounds) ≡ ok d
    → (es : List StoredEvent) × (events_after s id cursor round.at_events ≡ ok es)
      × (((d ≡ record {
        events = (deliver cursor es).0;
        cursor = (deliver cursor es).1;
        ending = finished;
      })
            × ((found : Option StoredRecord) × (get s id round.at_get ≡ ok found)
                × Settled is_final found (deliver cursor es).1))
          ⊎ ((x : Delivered) × (subscribe_rounds s is_final id (deliver cursor es).1 rounds ≡ ok x)
              × (d ≡ before (deliver cursor es).0 x)
              × ((found : Option StoredRecord) × (get s id round.at_get ≡ ok found)
                  × (¬ Settled is_final found (deliver cursor es).1))))
unfolding subscribe_rounds
round_cases s is_final id cursor round rounds d goes h =
    let (_, _, h₁) = >>=-eq-ok (validate_sequence cursor) _ (rw goes at h) in
    let (es, e, h₂) = >>=-eq-ok (events_after s id cursor round.at_events) _ h₁ in
    let (found, g, h₃) = >>=-eq-ok (get s id round.at_get) _ h₂ in
    elim (settle-cases is_final (deliver cursor es) _ found d h₃) [
      | inl (is, settled) ↦ (es, e, inl (is, (found, g, settled)))
      | inr (x, went, is, open_yet) ↦ (es, e, inr (x, went, is, (found, g, open_yet)))
    ]

aborted_round :
    (s : Store) (is_final : StoredRecord → Bool) (id : String) (cursor : ℕ) (round : Round)
    (rounds : List Round) (d : Delivered)
    → round.aborted ≡ true
    → subscribe_rounds s is_final id cursor (round ∷ rounds) ≡ ok d
    → (d.events ≡ []) × (d.cursor ≡ cursor)
unfolding subscribe_rounds
aborted_round s is_final id cursor round rounds d stops h = (ground arith, ground arith)

pub delivered-IsExact :
    (bound : ℕ) (s : Store) (is_final : StoredRecord → Bool) (id : String) (cursor : ℕ)
    (db : Database) (rounds : List Round) (d : Delivered)
    → IsWellFormed db
    → Follows bound db rounds
    → cursor ≤ length (event_rows id db)
    → subscribe_rounds s is_final id cursor rounds ≡ ok d
    → IsExact (event_rows id (final_database db rounds)) cursor d
unfolding subscribe_rounds
delivered-IsExact bound s is_final id cursor db [] d wf f small h =
    nothing_sent cursor (event_rows id db) d small (ground arith) (ground arith)
delivered-IsExact bound s is_final id cursor db (round ∷ rounds) d wf (r, q, f) small h =
    let (wf₁, g₁) = Reach-LogMoves r wf in
    let (wf₂, g₂) = Reach-LogMoves q wf₁ in
    let (xs, e₁) = g₁ id in
    let (ys, e₂) = g₂ id in
    let (zs, e₃) = Follows-grows bound id round.at_get rounds wf₂ f in
    let rows = event_rows id round.at_events in
    let log = event_rows id (final_database round.at_get rounds) in
    let joined : log ≡ rows ++ (ys ++ zs) =
      e₃ ∙ ap (λ (l : List StoredEvent). l ++ zs) e₂ ∙ append_assoc rows ys zs in
    let small₁ : cursor ≤ length rows = longer cursor _ rows xs small e₁ in
    elim (Bool-cases round.aborted) [
      | inl stops ↦
          let (a, b) = aborted_round s is_final id cursor round rounds d stops h in
          nothing_sent cursor log d (longer cursor rows log (ys ++ zs) small₁ joined) a b
      | inr goes ↦
          let (es, e, cases) = round_cases s is_final id cursor round rounds d goes h in
          let sent = round_sends s id cursor round.at_events es wf₁ small₁ e in
          elim cases [
            | inl (is, halts) ↦
                sent-IsExact cursor rows (ys ++ zs) log d small₁ joined
                  (ap (λ k. k.events) is ∙ ap (λ k. k.0) sent)
                  (ap (λ k. k.cursor) is ∙ ap (λ k. k.1) sent)
            | inr (x, went, is, on_it) ↦
                let on : subscribe_rounds s is_final id (length rows) rounds ≡ ok x =
                  subst (λ k. subscribe_rounds s is_final id k rounds ≡ ok x) (ap (λ k. k.1) sent)
                    went in
                joined-IsExact cursor rows (ys ++ zs) log x d small₁ joined
                  (delivered-IsExact bound s is_final id (length rows) round.at_get rounds x wf₂ f
                    (longer (length rows) rows _ ys (omega arith) e₂) on)
                  (ap (λ k. k.events) is ∙ ap (λ k. k.0 ++ x.events) sent) (ap (λ k. k.cursor) is)
          ]
    ]
