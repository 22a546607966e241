-- ===== src/Hash/Locked/Late/Kept.antt =====
-- Only a deletion takes the first node of a bucket away.
use socket_to_rdma.Base.{
  ℕ, suc, ◌≤◌, ◌≡◌, refl, ap, Bool, true, false, [], ◌∷◌, ◌==◌, ◌||◌, inl, inr, Bool-cases, arith,
  length,
}
use socket_to_rdma.Hash.Table.{Chain, HashTable, new_node, append_node, insert_by_value}
use socket_to_rdma.Hash.Murmur.{hash_function}
use socket_to_rdma.Hash.Socket.{socket_insert-eq}
use socket_to_rdma.Hash.Locked.{
  CardTable, rdma_ht, sock_ht, TableCall, call_insert, call_search, call_search_value, call_delete,
  call_delete_value, run, locked_insert, locked_search, locked_search_value, locked_socket_insert,
  locked_socket_search, locked_socket_search_value,
}
use socket_to_rdma.Hash.Locked.Late.{same_chain, head_gone, Log}

abbrev pub deletes : TableCall → Bool
deletes (call_delete key) = true
deletes (call_delete_value value) = true
deletes _ = false

-- a deletion is among the calls
abbrev pub any_deletes : Log → Bool
any_deletes [] = false
any_deletes ((c, r) ∷ log) = deletes c || any_deletes log

same_chain-length : (c d : Chain) → same_chain c d ≡ true → length c ≡ length d
unfolding same_chain
same_chain-length [] [] e = refl
same_chain-length [] (n ∷ d) e = absurd (ground arith)
same_chain-length (m ∷ c) [] e = absurd (ground arith)
same_chain-length (m ∷ c) (n ∷ d) e = ap suc (same_chain-length c d (ground arith))

-- a chain that does not get shorter keeps its first node
longer-kept : (c d : Chain) → length c ≤ length d → head_gone c d ≡ false
unfolding head_gone
longer-kept [] d h = refl
longer-kept (n ∷ c) d h = elim (Bool-cases (same_chain c d)) [
  | inl gone ↦ absurd (omega (arith, same_chain-length c d gone))
  | inr kept ↦ kept
]

length-append_node : (c : Chain) (k v i : ℕ) → length c ≤ length (append_node c (new_node k v i))
unfolding append_node
length-append_node [] k v i = omega arith
length-append_node (n ∷ c) k v i = omega (arith, length-append_node c k v i)

insert-longer :
    (malloc : Bool) (t : HashTable) (k v b : ℕ)
    → length (t.table b) ≤ length ((insert_by_value malloc t k v).1.table b)
unfolding insert_by_value
insert-longer false t k v b = omega arith
insert-longer true t k v b = elim (Bool-cases (b == hash_function k)) [
  | inl here ↦
      let e : b ≡ hash_function k = ground arith in
      rw here (rw e (length-append_node (t.table (hash_function k)) k v (hash_function k)))
  | inr apart ↦ rw apart (omega arith)
]

pub kept_by :
    (which : CardTable) (c : TableCall) (t : HashTable) (b : ℕ)
    → deletes c ≡ false
    → head_gone (t.table b) ((run which c t).table.table b) ≡ false
unfolding locked_insert locked_search locked_search_value locked_socket_insert locked_socket_search
    locked_socket_search_value
kept_by rdma_ht (call_insert malloc k v) t b e = longer-kept _ _ (insert-longer malloc t k v b)
kept_by sock_ht (call_insert malloc k v) t b e =
    rw (socket_insert-eq malloc t k v) (longer-kept _ _ (insert-longer malloc t k v b))
kept_by rdma_ht (call_search k) t b e = longer-kept _ _ (omega arith)
kept_by sock_ht (call_search k) t b e = longer-kept _ _ (omega arith)
kept_by rdma_ht (call_search_value v) t b e = longer-kept _ _ (omega arith)
kept_by sock_ht (call_search_value v) t b e = longer-kept _ _ (omega arith)
kept_by which (call_delete k) t b e = absurd (ground arith)
kept_by which (call_delete_value v) t b e = absurd (ground arith)
