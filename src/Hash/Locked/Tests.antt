-- ===== src/Hash/Locked/Tests.antt =====
-- The card's tables at concrete calls of two threads.
use socket_to_rdma.Base.{ℕ, ◌≡◌, ◌↔◌, refl, true, none, some, [], ◌∷◌, arith}
use socket_to_rdma.Hash.Table.{create_hash_table}
use socket_to_rdma.Hash.Locked.{
  writing, CardTable, rdma_ht, sock_ht, call_insert, call_search, call_delete, run,
  locked_socket_insert,
}
use socket_to_rdma.Hash.Locked.System.{
  outside, at_lock, entered, loaded, update, Shared, left, calls, enters, loads, leaves, Reach,
  start, later,
}
use socket_to_rdma.Hash.Locked.TestLock.{free, written_by, read_by, test_lock}
use socket_to_rdma.Hash.Locked.Unlocks.{OnEmptyBucket}
use socket_to_rdma.Hash.Locked.Stuck.{
  still, other, Own, alone_call, alone_call-Reach, empty_delete_blocks, call_ends,
}

abbrev idle : (which : CardTable) → Shared test_lock which
idle which = record { lock = free; table = create_hash_table; places = λ j. outside; log = [] }

idle-Reach : (which : CardTable) → Reach test_lock which create_hash_table (idle which)
idle-Reach which = start free (λ j. refl)

abbrev waiting : Shared test_lock sock_ht
waiting = record (idle sock_ht) {
  places = update (idle sock_ht).places 2 (at_lock (call_search 5));
}

-- Thread 2 waits for the lock until thread 1 has inserted.
abbrev inserted : Shared test_lock sock_ht
inserted = alone_call test_lock sock_ht waiting 1 (call_insert true 5 77) (written_by 1)

abbrev searched : Shared test_lock sock_ht
searched =
    left test_lock sock_ht
      (record inserted {
        lock = read_by (2 ∷ []);
        places =
            update (update inserted.places 2 (entered (call_search 5))) 2
              (loaded (call_search 5) inserted.table);
      })
      2 (call_search 5) inserted.table

searched-Reach : Reach test_lock sock_ht create_hash_table searched
unfolding locked_socket_insert
searched-Reach =
    let at_first : Reach test_lock sock_ht create_hash_table waiting =
      later 2 (idle-Reach sock_ht) (calls (call_search 5) refl) in
    let then' =
      alone_call-Reach test_lock sock_ht create_hash_table waiting 1 (call_insert true 5 77)
        (written_by 1) at_first refl refl in
    later 2
      (later 2 (later 2 then' (enters (call_search 5) (read_by (2 ∷ [])) refl refl))
        (loads (call_search 5) refl))
      (leaves (call_search 5) inserted.table refl)

call_ends_example :
    (u : Shared test_lock sock_ht) × Own test_lock sock_ht 4 1 (idle sock_ht) u
    × Reach test_lock sock_ht create_hash_table u
    × (u.places 1 ≡ outside)
    × (u.log
        ≡ (call_insert true 5 77, (run sock_ht (call_insert true 5 77) create_hash_table).result)
          ∷ [])
    × (u.table ≡ (run sock_ht (call_insert true 5 77) create_hash_table).table)
    × ((OnEmptyBucket (call_insert true 5 77) create_hash_table → ⊥)
        ↔ ((j : ℕ) → test_lock.holds u.lock j ≡ none))
call_ends_example =
    call_ends test_lock sock_ht {s = idle sock_ht} 1 (call_insert true 5 77) (idle-Reach sock_ht)
      refl (λ j. refl)

abbrev deleting : Shared test_lock rdma_ht
deleting = record {
  lock = written_by 1;
  table = create_hash_table;
  places =
      update
        (update (update (λ j. outside) 1 (at_lock (call_delete 5))) 1 (entered (call_delete 5))) 1
        (loaded (call_delete 5) create_hash_table);
  log = [];
}

deleting-Reach : Reach test_lock rdma_ht create_hash_table deleting
deleting-Reach =
    later 1
      (later 1 (later 1 (idle-Reach rdma_ht) (calls (call_delete 5) refl))
        (enters (call_delete 5) (written_by 1) refl refl))
      (loads (call_delete 5) refl)

abbrev asked : Shared test_lock rdma_ht
asked =
    let s = left test_lock rdma_ht deleting 1 (call_delete 5) create_hash_table in
    record s { places = update s.places 2 (at_lock (call_search 5)) }

empty_delete_blocks_example :
    (test_lock.holds asked.lock 1 ≡ some writing)
    × (asked.table ≡ create_hash_table)
    × (asked.log ≡ (call_delete 5, (run rdma_ht (call_delete 5) create_hash_table).result) ∷ [])
unfolding create_hash_table
empty_delete_blocks_example =
    empty_delete_blocks test_lock rdma_ht 1 (call_delete 5) create_hash_table deleting-Reach refl
      refl (other 2 (omega arith) still (calls (call_search 5) refl))
