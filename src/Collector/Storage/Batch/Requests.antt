-- ===== src/Collector/Storage/Batch/Requests.antt =====
-- The requests of a batch write: their sizes and how many they are.
use nfm_dashboard.Prelude.{
  ℕ, zero, suc, ◌+◌, ◌*◌, ◌≤◌, ◌<◌, ◌≡◌, inl, inr, some, List, [], ◌∷◌, ◌++◌, length, take, drop,
  length-append, length-take-le, All, All-append, arith, Option-cases,
}
use nfm_dashboard.Prelude.Perms.{length-Perm}
use nfm_dashboard.Collector.Storage.Batch.{
  Table, send_chunk, send_chunks, rounds_of, batch_write_all, chunk_size, retries,
}

module _ {A : Type 0} where
  abbrev pub IsRequest : List A → Type 0
  IsRequest sent = (0 < length sent) × (length sent ≤ chunk_size)

module _ {A : Type 0} (table : Table A) where
  unprocessed-le :
      (n : ℕ) (sent left : List A)
      → table.unprocessed n sent ≡ some left
      → length left ≤ length sent
  unprocessed-le n sent left e = omega (
    arith,
    length-Perm (table.stored n sent ++ left) sent (table.splits n sent left e),
    length-append (table.stored n sent) left,
  )

  send_chunk_requests :
      (left n : ℕ) (items : List A)
      → length items ≤ chunk_size
      → All IsRequest (send_chunk table left n items).requests
        × (length (send_chunk table left n items).requests ≤ suc left)
  unfolding send_chunk
  send_chunk_requests zero n [] b = (tt, omega arith)
  send_chunk_requests (suc left) n [] b = (tt, omega arith)
  send_chunk_requests zero n (x ∷ items) b = elim (Option-cases (table.unprocessed n (x ∷ items))) [
    | inl e ↦ rw (e, send_chunk) (((omega arith, b), tt), omega arith)
    | inr (rest, e) ↦ rw (e, send_chunk) (((omega arith, b), tt), omega arith)
  ]
  send_chunk_requests (suc left) n (x ∷ items) b =
      elim (Option-cases (table.unprocessed n (x ∷ items))) [
        | inl e ↦ rw (e, send_chunk) (((omega arith, b), tt), omega arith)
        | inr (rest, e) ↦
            let (each, few) =
              send_chunk_requests left (n + 1) rest
                (omega (arith, unprocessed-le n (x ∷ items) rest e)) in
            rw (e, send_chunk) (((omega arith, b), each), omega arith)
      ]

  send_chunks_requests :
      (rounds n : ℕ) (items : List A)
      → All IsRequest (send_chunks table rounds n items).requests
        × (length (send_chunks table rounds n items).requests ≤ 4 * rounds)
  unfolding send_chunks
  send_chunks_requests zero n items = (tt, omega arith)
  send_chunks_requests (suc rounds) n items =
      let w = send_chunk table retries n (take chunk_size items) in
      let (each, few) =
        send_chunk_requests retries n (take chunk_size items) (length-take-le chunk_size items) in
      let (each', few') =
        send_chunks_requests rounds (n + length w.requests) (drop chunk_size items) in
      elim (Option-cases w.dropped) [
        | inl e ↦ rw (e, send_chunks) (each, omega arith)
        | inr (d, e) ↦
            rw (e, send_chunks)
              (
                All-append IsRequest w.requests _ each each',
                omega (
                  arith,
                  length-append w.requests
                      (send_chunks table rounds (n + length w.requests)
                        (drop chunk_size items)).requests,
                ),
              )
      ]

  -- Each request has from 1 to 25 items, and there are at most four for each 25 items begun.
  pub batch_write_all_requests :
      (items : List A)
      → All IsRequest (batch_write_all table items).requests
        × (length (batch_write_all table items).requests ≤ 4 * rounds_of items)
  unfolding batch_write_all
  batch_write_all_requests items = send_chunks_requests (rounds_of items) 0 items
