-- ===== src/Output/Read.antt =====
-- `readJobOutputRecord` of src/job-output.ts. An output is its bytes in UTF-8, and so is a chunk, which
-- stands between two boundaries of code points.
use agentknot.Common.{
  Bool, List, Option, Result, String, drop, false, get_elem?, get_or, guard, if◌then◌else◌, leb,
  length, ltb, none, not, ok, some, suc, take, text_eq, true, utf16_length, zero, ℕ, ◌&&◌, ◌*◌, ◌+◌,
  ◌-◌, ◌/◌, ◌==◌, ◌>>=◌, ◌>>◌,
}

pub record ReadOptions : Type 0 where
  pub subtask_id : Option String
  pub cursor : Option ℕ
  pub max_bytes : Option ℕ

-- What the function reads of a Job: the subtask that its metadata names, and its output.
pub record OutputJob : Type 0 where
  pub delegated_subtask_id : Option String
  pub output : Option (List ℕ)

pub data UnavailableReason : Type 0 where
  job_not_found subtask_not_found output_unavailable : UnavailableReason

pub record Chunk : Type 0 where
  pub chunk : List ℕ
  pub cursor : ℕ
  pub next_cursor : Option ℕ
  pub has_more : Bool
  pub total_bytes : ℕ

pub data ReadResult : Type 0 where
  available : Chunk → ReadResult
  unavailable : UnavailableReason → ReadResult

pub data ReadError : Type 0 where
  bad_cursor bad_limit bad_subtask cursor_past_end cursor_inside_code_point : ReadError

abbrev default_chunk_bytes : ℕ
default_chunk_bytes = 4 * 1024

abbrev pub min_chunk_bytes : ℕ
min_chunk_bytes = 4

abbrev pub max_chunk_bytes : ℕ
max_chunk_bytes = 16 * 1024

abbrev largest_safe_integer : ℕ
largest_safe_integer = 9007199254740991

unfoldable pub read_limit : ReadOptions → Result ReadError ℕ
read_limit options = do
  let bytes = get_or options.max_bytes default_chunk_bytes
  guard (leb min_chunk_bytes bytes && leb bytes max_chunk_bytes) bad_limit
  ok bytes

unfoldable pub read_cursor : ReadOptions → Result ReadError ℕ
read_cursor options = do
  let cursor = get_or options.cursor 0
  guard (leb cursor largest_safe_integer) bad_cursor
  ok cursor

-- `(byte & 0xc0) === 0x80`
unfoldable pub is_continuation : ℕ → Bool
is_continuation byte = byte / 64 == 2

-- The test of the byte at an index, which no byte behind the end passes.
unfoldable pub continues_at : List ℕ → ℕ → Bool
continues_at bytes i = elim (get_elem? bytes i) [ none ↦ false | some b ↦ is_continuation b ]

-- The loop that moves `end` back to a boundary.
unfoldable pub back_up : List ℕ → ℕ → ℕ → ℕ
back_up bytes cursor zero = zero
back_up bytes cursor (suc e) =
    let before = back_up bytes cursor e in
    if ltb cursor (suc e) && continues_at bytes (suc e) then before else suc e

unfoldable pub chunk_end : List ℕ → ℕ → ℕ → ℕ
chunk_end bytes cursor limit =
    back_up bytes cursor
      (if leb (length bytes) (cursor + limit) then length bytes else cursor + limit)

unfoldable pub read_chunk : List ℕ → ℕ → ℕ → Result ReadError Chunk
read_chunk bytes cursor limit = do
  guard (leb cursor (length bytes)) cursor_past_end
  guard (not (continues_at bytes cursor)) cursor_inside_code_point
  let end = chunk_end bytes cursor limit
  ok (record {
    chunk = take (end - cursor) (drop cursor bytes);
    cursor = cursor;
    next_cursor = if ltb end (length bytes) then some end else none;
    has_more = ltb end (length bytes);
    total_bytes = length bytes;
  })

abbrev assert_subtask : Option String → Result ReadError (Unit {0})
assert_subtask none = ok tt
assert_subtask (some id) = guard (leb 1 (utf16_length id) && leb (utf16_length id) 256) bad_subtask

abbrev is_other_subtask : Option String → Option String → Bool
is_other_subtask none delegated = false
is_other_subtask (some id) none = true
is_other_subtask (some id) (some d) = not (text_eq d id)

abbrev read_of : OutputJob → Option String → ℕ → ℕ → Result ReadError ReadResult
read_of j subtask cursor limit =
    if is_other_subtask subtask j.delegated_subtask_id
    then ok (unavailable subtask_not_found)
    else elim j.output [
      | none ↦ ok (unavailable output_unavailable)
      | some bytes ↦ (read_chunk bytes cursor limit >>= λ c. ok (available c))
    ]

unfoldable pub read_job_output_record : Option OutputJob → ReadOptions → Result ReadError ReadResult
read_job_output_record found options = do
  cursor ← read_cursor options
  limit ← read_limit options
  assert_subtask options.subtask_id
  elim found [
    | none ↦ ok (unavailable job_not_found)
    | some j ↦ read_of j options.subtask_id cursor limit
  ]
