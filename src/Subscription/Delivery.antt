-- ===== src/Subscription/Delivery.antt =====
-- What one round of a subscription of src/durable-subscription.ts sends.
use mathlib.Core.List.{append-nil, append_assoc}
use agentknot.Common.{
  List, Option-cases, String, [], ap, arith, drop, inl, inr, length, lookup, ok, refl, subst, suc,
  sym, take, text_key, zero, ℕ, ◌++◌, ◌+◌, ◌∙◌, ◌∷◌, ◌≡◌, ◌≤◌,
}
use agentknot.Ledger.Services.{found}
use agentknot.Store.EventLog.{IsLogged, IsWellFormed, RowIsLogged}
use agentknot.Store.History.{Reach-LogMoves}
use agentknot.Store.Numbering.{Numbered, keep-after_cursor}
use agentknot.Store.Records.{events_after}
use agentknot.Store.Sql.{Database, event_rows, select_events}
use agentknot.Store.Steps.{Reach}
use agentknot.Store.Types.{Store, StoredEvent}
use agentknot.Subscription.Subscribe.{Round, deliver}

deliver-Numbered :
    (cursor : ℕ) (es : List StoredEvent)
    → Numbered cursor es
    → deliver cursor es ≡ (es, cursor + length es)
unfolding deliver
deliver-Numbered cursor [] h = ground arith
deliver-Numbered cursor (e ∷ es) h = ground (arith, h.0, h.1, deliver-Numbered (suc cursor) es h.1)

drop-Numbered :
    (n d : ℕ) (es : List StoredEvent) → d ≤ length es → Numbered n es → Numbered (n + d) (drop d es)
drop-Numbered n zero es small h = subst (λ k. Numbered k es) (omega arith) h
drop-Numbered n (suc d) [] small h = ground (arith, small)
drop-Numbered n (suc d) (e ∷ es) small h =
    subst (λ k. Numbered k (drop d es)) (omega arith)
      (drop-Numbered (suc n) d es (omega (arith, small)) h.1)

length-drop : (d : ℕ) (es : List StoredEvent) → d ≤ length es → d + length (drop d es) ≡ length es
length-drop zero es small = omega arith
length-drop (suc d) [] small = ground (arith, small)
length-drop (suc d) (e ∷ es) small = ground (arith, length-drop d es (omega (arith, small)))

pub take-append : (n : ℕ) (xs ys : List StoredEvent) → n ≤ length xs → take n (xs ++ ys) ≡ take n xs
take-append zero xs ys small = refl
take-append (suc n) [] ys small = ground (arith, small)
take-append (suc n) (x ∷ xs) ys small = ap (λ r. x ∷ r) (take-append n xs ys (omega (arith, small)))

pub take-length : (es : List StoredEvent) → take (length es) es ≡ es
take-length [] = refl
take-length (e ∷ es) = ap (λ r. e ∷ r) (take-length es)

rows-Numbered : (db : Database) (id : String) → IsWellFormed db → Numbered 0 (event_rows id db)
rows-Numbered db id wf = elim (Option-cases (lookup id db.records)) [
  | inl absent ↦
      let none_there : event_rows id db ≡ [] = subst (RowIsLogged db id) absent (wf id) in
      subst (Numbered 0) (sym none_there) tt
  | inr (row, found) ↦
      let v : IsLogged db id row = subst (RowIsLogged db id) found (wf id) in
      subst (Numbered 0) (sym v.logged) v.numbered
]

-- What one round sends.
pub round_sends :
    (s : Store) (id : String) (cursor : ℕ) (db : Database) (es : List StoredEvent)
    → IsWellFormed db
    → cursor ≤ length (event_rows id db)
    → events_after s id cursor db ≡ ok es
    → deliver cursor es ≡ (drop cursor (event_rows id db), length (event_rows id db))
unfolding events_after select_events
round_sends s id cursor db es wf small h =
    let rows = event_rows id db in
    let numbered = rows-Numbered db id wf in
    let same : drop cursor rows ≡ es =
      sym (keep-after_cursor cursor 0 cursor rows (omega arith) numbered) ∙ (ground arith) in
    subst (λ e. deliver cursor e ≡ (drop cursor rows, length rows)) same
      (deliver-Numbered cursor (drop cursor rows) (
          subst (λ k. Numbered k (drop cursor rows)) (omega arith)
            (drop-Numbered 0 cursor rows small numbered))
        ∙ ap (λ k. (drop cursor rows, k)) (length-drop cursor rows small))

-- The databases that the rounds find come one after the other, whatever others call in between.
abbrev pub Follows : ℕ → Database → List Round → Type 0
Follows bound db [] = Unit
Follows bound db (round ∷ rounds) =
    Reach bound db round.at_events
    × Reach bound round.at_events round.at_get
    × Follows bound round.at_get rounds

abbrev pub final_database : Database → List Round → Database
final_database db [] = db
final_database db (round ∷ rounds) = final_database round.at_get rounds

pub Follows-grows :
    (bound : ℕ) (id : String) (db : Database) (rounds : List Round)
    → IsWellFormed db
    → Follows bound db rounds
    → (more : List StoredEvent) × (event_rows id (final_database db rounds)
        ≡ event_rows id db ++ more)
Follows-grows bound id db [] wf f = ([], sym (append-nil (event_rows id db)))
Follows-grows bound id db (round ∷ rounds) wf (r, q, f) =
    let (wf₁, g₁) = Reach-LogMoves r wf in
    let (wf₂, g₂) = Reach-LogMoves q wf₁ in
    let (xs, e) = g₁ id in
    let (ys, h) = g₂ id in
    let (zs, k) = Follows-grows bound id round.at_get rounds wf₂ f in
    (
      xs ++ (ys ++ zs),
      k
          ∙ ap (λ (l : List StoredEvent). l ++ zs) (h ∙ ap (λ (l : List StoredEvent). l ++ ys) e)
          ∙ append_assoc (event_rows id db ++ xs) ys zs
          ∙ append_assoc (event_rows id db) xs (ys ++ zs),
    )
