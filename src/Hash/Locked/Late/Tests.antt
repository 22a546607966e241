-- ===== src/Hash/Locked/Late/Tests.antt =====
-- A search whose node another thread deletes between its unlock and its read.
use socket_to_rdma.Base.{
  ℕ, ◌≡◌, refl, true, false, if◌then◌else◌, none, some, [], ◌∷◌, ◌==◌, All, map,
}
use socket_to_rdma.Hash.Murmur.{hash_function}
use socket_to_rdma.Hash.Table.{
  HashTable, create_hash_table, insert_by_value, search_by_key, delete_by_key,
}
use socket_to_rdma.Hash.Locked.{
  CardTable, rdma_ht, TableCall, call_search, call_delete, mode_of, run, found, locked_search,
  locked_delete,
}
use socket_to_rdma.Hash.Locked.System.{
  outside, at_lock, entered, loaded, update, replay, Agrees, Rwlock,
}
use socket_to_rdma.Hash.Locked.Late.{
  Late, Pending, unlocked, late_calls, late_enters, late_loads, unlocks, reads, LateReach,
  late_start, late_later, read_of, past, found_bucket, head_gone,
}
use socket_to_rdma.Hash.Locked.Late.Reads.{IsRead, LateReach-IsRead}
use socket_to_rdma.Hash.Locked.Stuck.{update_here}
use socket_to_rdma.Hash.Locked.TestLock.{free, written_by, read_by, without, test_lock}

module _ (lk : Rwlock) (which : CardTable) where
  -- a call up to its unlock, while no other thread steps
  abbrev behind_lock : Late lk which → ℕ → TableCall → lk.State → Late lk which
  behind_lock l i c k = record l {
    shared = record l.shared {
      lock = k;
      places =
          update (update (update l.shared.places i (at_lock c)) i (entered c)) i
            (loaded c l.shared.table);
    };
  }

  abbrev whole_call : Late lk which → ℕ → TableCall → lk.State → Late lk which
  whole_call l i c k = unlocked lk which (behind_lock l i c k) i c l.shared.table

  whole_call-LateReach :
      (t : HashTable) (l : Late lk which) (i : ℕ) (c : TableCall) (k : lk.State)
      → LateReach lk which t l
      → l.shared.places i ≡ outside
      → l.pending i ≡ none
      → lk.acquire l.shared.lock i (mode_of c) ≡ some k
      → LateReach lk which t (whole_call l i c k)
  whole_call-LateReach t l i c k r out none' got =
      late_later i
        (late_later i
          (late_later i (late_later i r (late_calls c out none'))
            (late_enters c k (update_here l.shared.places i (at_lock c)) got))
          (late_loads c (update_here (update l.shared.places i (at_lock c)) i (entered c))))
        (unlocks c l.shared.table (
          update_here (update (update l.shared.places i (at_lock c)) i (entered c)) i
            (loaded c l.shared.table)))

-- the table holds 70 for key 3
abbrev one : HashTable
one = (insert_by_value true create_hash_table 3 70).1

abbrev idle : Late test_lock rdma_ht
idle = record {
  shared = record { lock = free; table = one; places = λ j. outside; log = [] };
  pending = λ j. none;
  reads = [];
}

abbrev searched : Late test_lock rdma_ht
searched = whole_call test_lock rdma_ht idle 0 (call_search 3) (read_by (0 ∷ []))

abbrev deleted : Late test_lock rdma_ht
deleted = whole_call test_lock rdma_ht searched 1 (call_delete 3) (written_by 1)

searched-LateReach : LateReach test_lock rdma_ht one searched
searched-LateReach =
    whole_call-LateReach test_lock rdma_ht one idle 0 (call_search 3) (read_by (0 ∷ []))
      (late_start free (λ j. refl)) refl refl refl

deleted-LateReach : LateReach test_lock rdma_ht one deleted
unfolding locked_search without
deleted-LateReach =
    whole_call-LateReach test_lock rdma_ht one searched 1 (call_delete 3) (written_by 1)
      searched-LateReach refl refl refl

-- the search, which has unlocked, as the deletion of its node has ended
abbrev node : Pending
node =
    past (call_delete 3) (run rdma_ht (call_delete 3) one).result one
      (run rdma_ht (call_delete 3) one).table
      (record {
        call = call_search 3;
        result = (run rdma_ht (call_search 3) one).result;
        bucket = hash_function 3;
        freed = false;
        since = [];
      })

abbrev dangling : Late test_lock rdma_ht
dangling = record deleted {
  pending = λ j. if j == 0 then none else deleted.pending j;
  reads = read_of node ∷ [];
}

dangling-LateReach : LateReach test_lock rdma_ht one dangling
unfolding found_bucket insert_by_value create_hash_table hash_function
dangling-LateReach = late_later 0 deleted-LateReach (reads node refl)

LateReach-IsRead_example :
    (dangling.shared.table ≡ replay rdma_ht one dangling.shared.log)
    × Agrees rdma_ht one dangling.shared.log
    × All (IsRead dangling.shared.log) dangling.reads
LateReach-IsRead_example = LateReach-IsRead test_lock rdma_ht one dangling-LateReach

-- The search returns what stands in memory that was freed, though its entry in the log is 70.
read_freed : map (λ r. r.got) dangling.reads ≡ none ∷ []
unfolding locked_delete insert_by_value create_hash_table hash_function delete_by_key head_gone
read_freed = refl

entered_70 : (run rdma_ht (call_search 3) one).result ≡ found 70
unfolding locked_search insert_by_value create_hash_table hash_function search_by_key
entered_70 = refl
