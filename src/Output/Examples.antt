-- ===== src/Output/Examples.antt =====
-- The theorem on src/job-output.ts, applied to one output.
use agentknot.Common.{
  List, [], arith, false, get_or, length, none, ok, refl, some, take, true, ℕ, ◌++◌, ◌<◌, ◌∷◌, ◌≡◌,
  ◌≤◌, ◌⊎◌,
}
use agentknot.Output.Read.{Chunk, back_up, chunk_end, continues_at, is_continuation, read_chunk}
use agentknot.Output.ReadLaws.{has_short_runs, read_chunk-advances}

-- "aé€b" in UTF-8.
abbrev text : List ℕ
text = 97 ∷ 195 ∷ 169 ∷ 226 ∷ 130 ∷ 172 ∷ 98 ∷ []

-- Five bytes would end inside the third character, so the chunk stops before it.
first_chunk :
    read_chunk text 0 5
    ≡ ok (record {
      chunk = 97 ∷ 195 ∷ 169 ∷ [];
      cursor = 0;
      next_cursor = some 3;
      has_more = true;
      total_bytes = 7;
    })
unfolding read_chunk continues_at is_continuation chunk_end back_up
first_chunk = refl

text_facts : (has_short_runs text ≡ true) × (continues_at text 3 ≡ false)
unfolding is_continuation continues_at
text_facts = (refl, refl)

read_chunk-advances_example :
    (c : Chunk) × (read_chunk text 3 5 ≡ ok c)
    × (length c.chunk ≤ 5)
    × (take 3 text ++ c.chunk ≡ take (get_or c.next_cursor 7) text)
    × (continues_at text (get_or c.next_cursor 7) ≡ false)
    × ((c.next_cursor ≡ none) ⊎ (3 < get_or c.next_cursor 7))
read_chunk-advances_example =
    read_chunk-advances text 3 5 text_facts.0 (omega arith) text_facts.1 (omega arith)
