-- ===== src/Wire/Card/Select.antt =====
-- The card's layout of select.
use socket_to_rdma.Base.{ℕ, ◌+◌, ◌*◌, none, some, ◌==◌, if◌then◌else◌}
use socket_to_rdma.Base.Buffer.{Buffer, store, load, write, read}
use socket_to_rdma.Wire.Select.{Bytes?, SelectArgs, set_sz, tv_sz, zeros, sub32, div32}

-- One of the four branches of the writer, with the flag that has been summed so far.
unfoldable pub card_put_set : (sz offset digit : ℕ) → Bytes? → Buffer × ℕ → Buffer × ℕ
card_put_set sz offset digit none (m, flag) = (write m offset (zeros sz), flag)
card_put_set sz offset digit (some bs) (m, flag) = (write m offset bs, flag + digit)

unfoldable pub card_serialize_select_fd_set :
    Buffer → (nfds : ℕ) → (readfds writefds exceptfds timeout : Bytes?) → Buffer
unfolding card_put_set
card_serialize_select_fd_set m nfds r w e t =
    let s1 = card_put_set set_sz 5 1000 r (store 4 m 0 nfds, 0) in
    let s2 = card_put_set set_sz (5 + set_sz) 100 w s1 in
    let s3 = card_put_set set_sz (5 + 2 * set_sz) 10 e s2 in
    let s4 = card_put_set tv_sz (5 + 3 * set_sz) 1 t s3 in store 4 s4.0 4 s4.1

-- One of the four branches of the reader: the object keeps what it holds unless the digit is 1.
unfoldable pub card_get_set : (digit sz offset : ℕ) → Buffer → Bytes? → Bytes?
card_get_set digit sz offset m none = none
card_get_set digit sz offset m (some old) = if digit == 1 then some (read m offset sz) else some old

unfoldable pub card_deserialize_select_fd_set : Buffer → SelectArgs → SelectArgs
unfolding card_get_set
card_deserialize_select_fd_set m a =
    let flag = load 4 m 4 in
    let flag1 = sub32 flag 1000 in
    let flag2 = sub32 flag1 100 in
    let flag3 = sub32 flag2 10 in
    let all : SelectArgs = record {
      nfds = load 4 m 0;
      readfds = card_get_set (div32 flag 1000) set_sz 5 m a.readfds;
      writefds = card_get_set (div32 flag1 100) set_sz (5 + set_sz) m a.writefds;
      exceptfds = card_get_set (div32 flag2 10) set_sz (5 + 2 * set_sz) m a.exceptfds;
      timeout = card_get_set flag3 tv_sz (5 + 3 * set_sz) m a.timeout;
    } in
    if flag == 0 then record a { nfds = load 4 m 0 } else all
