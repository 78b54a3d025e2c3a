-- ===== src/Collector/Storage/Batch/Accounts.antt =====
-- Every item that is to be written is stored or counted as dropped.
use mathlib.Core.List.Perm
use mathlib.Core.List.{Perm, append-nil}
use nfm_dashboard.Prelude.{
  ℕ, zero, suc, ◌+◌, ◌*◌, ◌≤◌, ◌≡◌, some, List, [], ◌∷◌, ◌++◌, length, take, drop, length-append,
  length-drop, take-append-drop, ◌⊎◌, inl, inr, arith, Option-cases,
}
use nfm_dashboard.Prelude.Perms.{Perm-append_assoc, Perm-append_splits}
use nfm_dashboard.Collector.Storage.Batch.{
  Table, Written, send_chunk, send_chunks, rounds_of, batch_write_all, chunk_size, retries,
}

module _ {A : Type 0} where
  -- The items are those that landed and as many others as were dropped; an item is dropped only
  -- after `attempts` requests.
  abbrev pub IsAccount : ℕ → List A → Written A → ℕ → Type 0
  IsAccount attempts items w d =
      (lost : List A) × Perm (w.landed ++ lost) items
      × (length lost ≡ d)
      × ((d ≡ 0) ⊎ (attempts ≤ length w.requests))

  no_more :
      {xs items : List A} (lost : List A)
      → length lost ≡ 0
      → Perm (xs ++ lost) items
      → Perm xs items
  no_more {xs} [] h p = rw (append-nil xs) at p
  no_more (x ∷ lost) h p = absurd (omega arith)

module _ {A : Type 0} (table : Table A) where
  send_chunk-IsAccount :
      (left n : ℕ) (items : List A) (d : ℕ)
      → (send_chunk table left n items).dropped ≡ some d
      → IsAccount (suc left) items (send_chunk table left n items) d
  unfolding send_chunk
  send_chunk-IsAccount zero n [] d h = ([], Perm.rfl, cc, ground arith)
  send_chunk-IsAccount (suc left) n [] d h = ([], Perm.rfl, cc, ground arith)
  send_chunk-IsAccount zero n (x ∷ items) d h =
      elim (Option-cases (table.unprocessed n (x ∷ items))) [
        | inl e ↦ absurd (ground arith)
        | inr (rest, e) ↦
            rw (e, send_chunk)
              (rest, table.splits n (x ∷ items) rest e, ground arith, inr (omega arith))
      ]
  send_chunk-IsAccount (suc left) n (x ∷ items) d h =
      elim (Option-cases (table.unprocessed n (x ∷ items))) [
        | inl e ↦ absurd (ground arith)
        | inr (rest, e) ↦
            let (lost, p, q, c) =
              send_chunk-IsAccount left (n + 1) rest d (rw (e, send_chunk) at h) in
            rw (e, send_chunk)
              (
                lost,
                Perm-append_assoc (table.stored n (x ∷ items)) _ lost rest (x ∷ items)
                    (table.splits n (x ∷ items) rest e) p,
                q,
                ground arith,
              )
      ]

  send_chunks-IsAccount :
      (rounds n : ℕ) (items : List A) (d : ℕ)
      → length items ≤ rounds * chunk_size
      → (send_chunks table rounds n items).dropped ≡ some d
      → IsAccount 4 items (send_chunks table rounds n items) d
  unfolding send_chunks
  send_chunks-IsAccount zero n [] d b h = ([], Perm.rfl, cc, ground arith)
  send_chunks-IsAccount zero n (x ∷ items) d b h = absurd (omega arith)
  send_chunks-IsAccount (suc rounds) n items d b h =
      let sent = take chunk_size items in
      let w = send_chunk table retries n sent in
      elim (Option-cases w.dropped) [
        | inl e ↦ absurd (ground arith)
        | inr (d', e) ↦
            let rest = send_chunks table rounds (n + length w.requests) (drop chunk_size items) in
            elim (Option-cases rest.dropped) [
              | inl f ↦ absurd (ground arith)
              | inr (d'', f) ↦
                  let (lost, p, q, c) = send_chunk-IsAccount retries n sent d' e in
                  let (lost', p', q', c') =
                    send_chunks-IsAccount rounds (n + length w.requests) (drop chunk_size items) d''
                      (omega (arith, length-drop chunk_size items)) f in
                  let sum : d' + d'' ≡ d = ground arith in
                  rw (e, send_chunks)
                    (
                      lost ++ lost',
                      rw (take-append-drop chunk_size items) at (
                          Perm-append_splits w.landed rest.landed lost lost' sent
                            (drop chunk_size items) p p'),
                      ground (arith, length-append lost lost'),
                      ground (arith, length-append w.requests rest.requests),
                    )
            ]
      ]

  -- Where no call fails and `d` items are reported as dropped, the items are, in some order, those
  -- that the table took and `d` others; and where `d` is not 0, there were at least four requests.
  pub batch_write_all_accounts :
      (items : List A) (d : ℕ)
      → (batch_write_all table items).dropped ≡ some d
      → IsAccount 4 items (batch_write_all table items) d
  unfolding batch_write_all
  batch_write_all_accounts items d h =
      send_chunks-IsAccount (rounds_of items) 0 items d (omega arith) h

  -- In particular a result of 0 means that every item landed.
  pub batch_write_all-landed :
      (items : List A)
      → (batch_write_all table items).dropped ≡ some 0
      → Perm (batch_write_all table items).landed items
  batch_write_all-landed items h =
      let (lost, p, q, c) = batch_write_all_accounts items 0 h in no_more lost q p
