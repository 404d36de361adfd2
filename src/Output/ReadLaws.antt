-- ===== src/Output/ReadLaws.antt =====
-- What src/job-output.ts promises of a chunk.
use agentknot.Common.{
  Bool, Bool-cases, List, [], ap, arith, drop, false, get_or, if◌then◌else◌, inl, inr, leb, leb→le,
  length, length-take-le, ltb, none, not, ok, refl, some, subst, suc, sym, take, true, zero, ℕ,
  ◌&&◌, ◌++◌, ◌+◌, ◌-◌, ◌<◌, ◌∙◌, ◌∷◌, ◌≡◌, ◌≤◌, ◌⊎◌,
}
use agentknot.Output.Read.{
  Chunk, back_up, chunk_end, continues_at, is_continuation, min_chunk_bytes, read_chunk,
}

back_up-le : (bytes : List ℕ) (cursor e : ℕ) → back_up bytes cursor e ≤ e
unfolding back_up
back_up-le bytes cursor zero = omega arith
back_up-le bytes cursor (suc e) = ground (arith, back_up-le bytes cursor e)

back_up-ge : (bytes : List ℕ) (cursor e : ℕ) → cursor ≤ e → cursor ≤ back_up bytes cursor e
unfolding back_up
back_up-ge bytes cursor zero h = h
back_up-ge bytes cursor (suc e) h = ground (arith, back_up-ge bytes cursor e)

-- It goes back behind no boundary.
back_up-boundary_ge :
    (bytes : List ℕ) (cursor e i : ℕ)
    → i ≤ e
    → continues_at bytes i ≡ false
    → i ≤ back_up bytes cursor e
unfolding back_up
back_up-boundary_ge bytes cursor zero i h b = h
back_up-boundary_ge bytes cursor (suc e) i h b = elim (Bool-cases (leb i e)) [
  | inl small ↦
      let rest = back_up-boundary_ge bytes cursor e i (leb→le i e small) b in ground (arith, rest)
  | inr large ↦
      let same : i ≡ suc e = ground (arith, h) in
      let stops : continues_at bytes (suc e) ≡ false =
        subst (λ k. continues_at bytes k ≡ false) same b in
      ground (arith, stops, same)
]

back_up-boundary :
    (bytes : List ℕ) (cursor e : ℕ)
    → cursor ≤ e
    → continues_at bytes cursor ≡ false
    → continues_at bytes (back_up bytes cursor e) ≡ false
unfolding back_up
back_up-boundary bytes cursor zero h b =
    let same : cursor ≡ 0 = omega (arith, h) in subst (λ k. continues_at bytes k ≡ false) same b
back_up-boundary bytes cursor (suc e) h b = elim (Bool-cases (ltb cursor (suc e))) [
  | inl small ↦
      let rest = back_up-boundary bytes cursor e (ground (arith, small)) b in
      ground (arith, small, rest)
  | inr large ↦
      let same : cursor ≡ suc e = ground (arith, h) in
      let stops : continues_at bytes (suc e) ≡ false =
        subst (λ k. continues_at bytes k ≡ false) same b in
      ground (arith, large, stops)
]

continues_at-end : (bytes : List ℕ) (i : ℕ) → length bytes ≤ i → continues_at bytes i ≡ false
unfolding continues_at
continues_at-end [] i h = refl
continues_at-end (b ∷ bytes) zero h = ground (arith, h)
continues_at-end (b ∷ bytes) (suc i) h = continues_at-end bytes i (omega (arith, h))

-- UTF-8 has at most three continuation bytes in a row.
abbrev four_continue : List ℕ → Bool
four_continue (a ∷ b ∷ c ∷ d ∷ rest) =
    is_continuation a && is_continuation b && is_continuation c && is_continuation d
four_continue _ = false

abbrev pub has_short_runs : List ℕ → Bool
has_short_runs [] = true
has_short_runs (b ∷ bytes) = not (four_continue (b ∷ bytes)) && has_short_runs bytes

short_run :
    (bytes : List ℕ) (i : ℕ)
    → has_short_runs bytes ≡ true
    → (continues_at bytes i
        && continues_at bytes (suc i)
        && continues_at bytes (suc (suc i))
        && continues_at bytes (suc (suc (suc i))))
      ≡ false
unfolding continues_at
short_run [] i h = refl
short_run (a ∷ bytes) (suc i) h = short_run bytes i (ground arith)
short_run (a ∷ []) zero h = ground arith
short_run (a ∷ b ∷ []) zero h = ground arith
short_run (a ∷ b ∷ c ∷ []) zero h = ground arith
short_run (a ∷ b ∷ c ∷ d ∷ rest) zero h = ground arith

-- Some boundary stands behind the cursor, at most four bytes on.
next_boundary :
    (bytes : List ℕ) (cursor : ℕ)
    → has_short_runs bytes ≡ true
    → (i : ℕ) × (cursor < i) × (i ≤ cursor + 4) × (continues_at bytes i ≡ false)
next_boundary bytes cursor h =
    let short = short_run bytes (suc cursor) h in
    elim (Bool-cases (continues_at bytes (suc cursor))) [
      | inr a ↦ (suc cursor, omega arith, omega arith, a)
      | inl a ↦ elim (Bool-cases (continues_at bytes (suc (suc cursor)))) [
        | inr b ↦ (suc (suc cursor), omega arith, omega arith, b)
        | inl b ↦ elim (Bool-cases (continues_at bytes (suc (suc (suc cursor))))) [
          | inr c ↦ (suc (suc (suc cursor)), omega arith, omega arith, c)
          | inl c ↦ (
            suc (suc (suc (suc cursor))),
            omega arith,
            omega arith,
            ground (arith, short, a, b, c),
          )
        ]
      ]
    ]

abbrev furthest : List ℕ → ℕ → ℕ → ℕ
furthest bytes cursor limit =
    if leb (length bytes) (cursor + limit) then length bytes else cursor + limit

chunk_end-gt :
    (bytes : List ℕ) (cursor limit : ℕ)
    → has_short_runs bytes ≡ true
    → cursor < length bytes
    → 4 ≤ limit
    → cursor < chunk_end bytes cursor limit
unfolding chunk_end
chunk_end-gt bytes cursor limit runs small wide =
    elim (Bool-cases (leb (length bytes) (cursor + limit))) [
      | inl all_fits ↦
          let reached =
            back_up-boundary_ge bytes cursor (furthest bytes cursor limit) (length bytes)
              (ground (arith, all_fits)) (continues_at-end bytes (length bytes) (omega arith)) in
          omega (arith, reached, small)
      | inr more ↦
          let (i, past, near, b) = next_boundary bytes cursor runs in
          let reached =
            back_up-boundary_ge bytes cursor (furthest bytes cursor limit) i
              (ground (arith, more, near, wide)) b in
          omega (arith, reached, past)
    ]

abbrev no_bytes : List ℕ
no_bytes = []

take-nil : (n : ℕ) → take n no_bytes ≡ no_bytes
take-nil zero = refl
take-nil (suc n) = refl

take-drop-take :
    (c k : ℕ) (bytes : List ℕ) → take c bytes ++ take k (drop c bytes) ≡ take (c + k) bytes
take-drop-take zero k bytes = ap (λ n. take n bytes) (omega arith)
take-drop-take (suc c) k [] = take-nil k ∙ sym (take-nil (suc c + k))
take-drop-take (suc c) k (b ∷ bytes) =
    let next : suc (c + k) ≡ suc c + k = omega arith in
    ap (λ (l : List ℕ). b ∷ l) (take-drop-take c k bytes) ∙ ap (λ n. take n (b ∷ bytes)) next

-- Where a chunk ends.
chunk_end-within :
    (bytes : List ℕ) (cursor limit : ℕ)
    → cursor ≤ length bytes
    → continues_at bytes cursor ≡ false
    → (cursor ≤ chunk_end bytes cursor limit)
      × (chunk_end bytes cursor limit ≤ length bytes)
      × (chunk_end bytes cursor limit ≤ cursor + limit)
      × (continues_at bytes (chunk_end bytes cursor limit) ≡ false)
unfolding chunk_end
chunk_end-within bytes cursor limit small boundary =
    let far = furthest bytes cursor limit in
    let reach : (cursor ≤ far) × (far ≤ length bytes) × (far ≤ cursor + limit) =
      (ground (arith, small), ground arith, ground arith) in
    let back = back_up-le bytes cursor far in
    (
      back_up-ge bytes cursor far reach.0,
      omega (arith, back, reach.1),
      omega (arith, back, reach.2),
      back_up-boundary bytes cursor far reach.0 boundary,
    )

next_is_end : (e total : ℕ) → e ≤ total → get_or (if ltb e total then some e else none) total ≡ e
next_is_end e total h = ground (arith, h)

-- A read of an output in UTF-8 from a cursor that is a boundary within it, with a limit of at least
-- four bytes, returns a chunk of at most that many. What stands before the cursor and the chunk are
-- the output up to the next cursor, which is a boundary behind the cursor; if there is no next cursor,
-- they are the whole output.
pub read_chunk-advances :
    (bytes : List ℕ) (cursor limit : ℕ)
    → has_short_runs bytes ≡ true
    → cursor ≤ length bytes
    → continues_at bytes cursor ≡ false
    → min_chunk_bytes ≤ limit
    → (c : Chunk) × (read_chunk bytes cursor limit ≡ ok c)
      × (length c.chunk ≤ limit)
      × (take cursor bytes ++ c.chunk ≡ take (get_or c.next_cursor (length bytes)) bytes)
      × (continues_at bytes (get_or c.next_cursor (length bytes)) ≡ false)
      × ((c.next_cursor ≡ none) ⊎ (cursor < get_or c.next_cursor (length bytes)))
unfolding read_chunk
read_chunk-advances bytes cursor limit runs small boundary wide =
    let e = chunk_end bytes cursor limit in
    let total = length bytes in
    let (after, within, near, at_boundary) = chunk_end-within bytes cursor limit small boundary in
    let same = next_is_end e total within in
    let sum : cursor + (e - cursor) ≡ e = omega (arith, after) in
    (
      record {
        chunk = take (e - cursor) (drop cursor bytes);
        cursor = cursor;
        next_cursor = if ltb e total then some e else none;
        has_more = ltb e total;
        total_bytes = total;
      },
      ground (arith, small, boundary),
      omega (arith, near, length-take-le (e - cursor) (drop cursor bytes)),
      take-drop-take cursor (e - cursor) bytes ∙ ap (λ n. take n bytes) (sum ∙ sym same),
      subst (λ n. continues_at bytes n ≡ false) (sym same) at_boundary,
      elim (Bool-cases (ltb e total)) [
        | inl more ↦
            let past = chunk_end-gt bytes cursor limit runs (ground (arith, more, after)) wide in
            inr (omega (arith, past, same))
        | inr done ↦ inl (ground (arith, done))
      ],
    )
