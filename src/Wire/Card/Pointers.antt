-- ===== src/Wire/Card/Pointers.antt =====
-- The card's layouts of fcntl, of the socket options and of addresses, whose values are memory at a
-- pointer, and the host's reader of fcntl.
use socket_to_rdma.Base.{ℕ, Option, none, some, List, ◌==◌, ltb, if◌then◌else◌}
use socket_to_rdma.Base.Buffer.{Buffer, store, load, write, read}
use socket_to_rdma.Wire.Fcntl.{takes_none, takes_int, takes_flock, flock_sz}
use socket_to_rdma.Wire.Sockopt.{SockoptArgs, addr_sz}

card_put_arg : ℕ → Buffer → Option Buffer → Buffer
card_put_arg sz m none = m
card_put_arg sz m (some arg) = write m 8 (read arg 0 sz)

-- The switch over the command: what it writes of the argument, and the flag.
unfoldable pub card_put_cmd : Buffer → (cmd : ℕ) → Option Buffer → Buffer × ℕ
unfolding card_put_arg
card_put_cmd m cmd arg =
    if takes_none cmd
    then (m, 0)
    else if takes_int cmd
    then (card_put_arg 4 m arg, 1)
    else if takes_flock cmd
    then (card_put_arg flock_sz m arg, 2)
    else (m, 0)

unfoldable pub card_serialize_fcntl_dt : Buffer → (cmd : ℕ) → Option Buffer → Buffer × ℕ
unfolding card_put_cmd
card_serialize_fcntl_dt m cmd arg =
    let s = card_put_cmd m cmd arg in (store 4 (store 4 s.0 0 cmd) 4 s.1, s.1)

pub record HostFcntl : Type 0 where
  pub flag : ℕ
  pub cmd : ℕ
  pub arg : Option Buffer

-- The host's reader fills the memory that the caller's pointer points at, if it is not NULL.
unfoldable pub host_get_arg : Buffer → (flag : ℕ) → Option Buffer → Option Buffer
host_get_arg m flag none = none
host_get_arg m flag (some old) =
    if flag == 1
    then some (write old 0 (read m 8 4))
    else if flag == 2
    then some (write old 0 (read m 8 flock_sz))
    else some old

unfoldable pub host_deserialize_fcntl_dt : Buffer → Option Buffer → HostFcntl
unfolding host_get_arg
host_deserialize_fcntl_dt m arg =
    let flag = load 4 m 4 in record { flag = flag; cmd = load 4 m 0; arg = host_get_arg m flag arg }

unfoldable pub card_serialize_sockopt_dt :
    Buffer → (level optname : ℕ) → (optval : Buffer) → (optlen : ℕ) → Buffer
card_serialize_sockopt_dt m level optname optval optlen =
    let heads = store 4 (store 4 (store 4 m 0 level) 4 optname) 8 optlen in
    if ltb 0 optlen then write heads 12 (read optval 0 optlen) else heads

unfoldable pub card_deserialize_sockopt_dt : Buffer → SockoptArgs
card_deserialize_sockopt_dt m =
    let optlen = load 4 m 8 in
    let optval = if ltb 0 optlen then some (read m 12 optlen) else none in
    record { level = load 4 m 0; optname = load 4 m 4; optlen = optlen; optval = optval }

unfoldable pub card_serialize_addr_dt : Buffer → (addrlen : ℕ) → List ℕ → Buffer
card_serialize_addr_dt m addrlen addr = write (store 4 m 0 addrlen) 4 addr

unfoldable pub card_deserialize_addr_dt : Buffer → ℕ × List ℕ
card_deserialize_addr_dt m = (load 4 m 0, read m 4 addr_sz)
