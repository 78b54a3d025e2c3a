-- ===== src/Collector/Storage/Batch.antt =====
-- batchWriteAll of collector/src/storage.ts: chunks of 25 items, each sent up to four times.
pub mod Accounts
pub mod Requests
use mathlib.Core.List.Perm
use mathlib.Core.List.{Perm}
use nfm_dashboard.Prelude.{
  ℕ, zero, suc, ◌+◌, ◌/◌, ◌≡◌, Option, none, some, List, [], ◌∷◌, ◌++◌, length, take, drop,
}

-- The table, by its answers: what the call with a given number leaves unprocessed of the items that
-- it sends (none if the call fails), and what it stores. The two are the items sent.
pub record Table (A : Type 0) : Type 0 where
  pub unprocessed : ℕ → List A → Option (List A)
  pub stored : ℕ → List A → List A
  pub splits :
      (n : ℕ) (sent left : List A)
      → unprocessed n sent ≡ some left
      → Perm (stored n sent ++ left) sent

abbrev pub chunk_size : ℕ
chunk_size = 25

abbrev pub retries : ℕ
retries = 3

-- What a run did: the requests that it sent, the items that the table took, and the result: how many
-- items were dropped, or none if a call failed.
pub record Written (A : Type 0) : Type 0 where
  pub requests : List (List A)
  pub landed : List A
  pub dropped : Option ℕ

abbrev pub add_dropped : ℕ → Option ℕ → Option ℕ
add_dropped d none = none
add_dropped d (some rest) = some (d + rest)

module _ {A : Type 0} where
  abbrev pub nothing : Written A
  nothing = record { requests = []; landed = []; dropped = some 0 }

  -- A request before the rest of its chunk.
  abbrev pub after : List A → List A → Written A → Written A
  after sent landed w = record w { requests = sent ∷ w.requests; landed = landed ++ w.landed }

  -- A chunk before the rest of the chunks.
  abbrev pub then : Written A → Written A → Written A
  then w rest = record {
    requests = w.requests ++ rest.requests;
    landed = w.landed ++ rest.landed;
    dropped = elim w.dropped [ none ↦ none | some d ↦ add_dropped d rest.dropped ];
  }

  -- How often `for (let i = 0; i < items.length; i += 25)` goes round.
  abbrev pub rounds_of : List A → ℕ
  rounds_of items = (length items + 24) / chunk_size

module _ {A : Type 0} (table : Table A) where
  -- The attempts of one chunk: `n` is the number of the call, `left` how many times it may be
  -- repeated.
  unfoldable pub send_chunk : ℕ → ℕ → List A → Written A
  send_chunk zero n [] = nothing
  send_chunk zero n (x ∷ pending) =
      let sent = x ∷ pending in
      elim (table.unprocessed n sent) [
        | none ↦ record { requests = sent ∷ []; landed = []; dropped = none }
        | some rest ↦ record {
          requests = sent ∷ [];
          landed = table.stored n sent;
          dropped = some (length rest);
        }
      ]
  send_chunk (suc left) n [] = nothing
  send_chunk (suc left) n (x ∷ pending) =
      let sent = x ∷ pending in
      elim (table.unprocessed n sent) [
        | none ↦ record { requests = sent ∷ []; landed = []; dropped = none }
        | some rest ↦ after sent (table.stored n sent) (send_chunk left (n + 1) rest)
      ]

  -- The chunks from the call with number `n` on; a failed call ends the loop.
  unfoldable pub send_chunks : ℕ → ℕ → List A → Written A
  unfolding send_chunk
  send_chunks zero n items = nothing
  send_chunks (suc rounds) n items =
      let w = send_chunk retries n (take chunk_size items) in
      elim w.dropped [
        | none ↦ w
        | some d ↦ then w (send_chunks rounds (n + length w.requests) (drop chunk_size items))
      ]

  unfoldable pub batch_write_all : List A → Written A
  unfolding send_chunks
  batch_write_all items = send_chunks (rounds_of items) 0 items
