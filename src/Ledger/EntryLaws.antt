-- ===== src/Ledger/EntryLaws.antt =====
-- The records of one immutable kind, as `create` and `get` of its store see them.
use mathlib.Core.Option.{map}
use agentknot.Common.{
  >>=-eq-ok, Option, Option-cases, String, arith, false, if◌then◌else◌, inl, inr, none, ok, refl,
  some, text_eq, ◌≡◌,
}
use agentknot.Ledger.Entries.{Codec, Entry, Shelf, create_entry, get_entry, of_stored, to_stored}
use agentknot.Ledger.Shelves.{create-stands, get-stands, stands, stands-get}
use agentknot.Store.Records.{create, get}
use agentknot.Store.Types.{attach_revision}

-- The record that a shelf has under an id, if it can be read.
unfoldable pub entry_at : {A : Type 0} → Codec A → String → Shelf → Option (Entry A)
entry_at codec id shelf = map (of_stored codec) (stands id shelf.rows)

entry_of-to_stored :
    {A : Type 0} (codec : Codec A) (e : Entry A)
    → codec.read (codec.write e.input) ≡ e.input
    → of_stored codec (attach_revision (to_stored codec e) 1) ≡ e
unfolding of_stored to_stored attach_revision
entry_of-to_stored codec e law = cc

module _ {A : Type 0} (codec : Codec A)
    (read-write : (x : A) → codec.read (codec.write x) ≡ x) where
  -- A creation adds one entry under a free id, and leaves the others.
  pub create_entry-entry_at :
      (e : Entry A) (shelf shelf' : Shelf)
      → create_entry codec e shelf ≡ ok shelf'
      → (entry_at codec e.id shelf ≡ none)
        × ((k : String)
            → entry_at codec k shelf' ≡ (if text_eq e.id k then some e else entry_at codec k shelf))
  unfolding create_entry entry_at to_stored
  create_entry-entry_at e shelf shelf' h =
      let (a, c, h₁) = >>=-eq-ok (create shelf.handle (to_stored codec e) shelf.rows) _ h in
      let (free, rows) = create-stands shelf.handle (to_stored codec e) shelf.rows a refl c in
      let same : a.1 ≡ shelf'.rows = ground arith in
      (
        ground (arith, free),
        λ k. ground (arith, rows k, same, entry_of-to_stored codec e (read-write e.input)),
      )

module _ {A : Type 0} (codec : Codec A) where
  pub get_entry-eq-some :
      (id : String) (shelf : Shelf) (e : Entry A)
      → get_entry codec id shelf ≡ ok (some e)
      → entry_at codec id shelf ≡ some e
  unfolding get_entry entry_at
  get_entry-eq-some id shelf e h =
      let (o, g, h₁) = >>=-eq-ok (get shelf.handle id shelf.rows) _ h in
      elim (Option-cases o) [
        | inl missing ↦ ground (arith, h₁, missing)
        | inr (r, is) ↦
            let (_, at) = get-stands shelf.handle id shelf.rows r (ground (arith, g, is)) in
            ground (arith, at, h₁, is)
      ]

  pub entry_at-get_entry :
      (id : String) (shelf : Shelf) (e : Entry A)
      → shelf.handle.closed ≡ false
      → entry_at codec id shelf ≡ some e
      → get_entry codec id shelf ≡ ok (some e)
  unfolding get_entry entry_at
  entry_at-get_entry id shelf e o h = elim (Option-cases (stands id shelf.rows)) [
    | inl missing ↦ ground (arith, missing)
    | inr (r, is) ↦ ground (arith, is, stands-get shelf.handle id shelf.rows r o is)
  ]
