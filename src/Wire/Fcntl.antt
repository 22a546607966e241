-- ===== src/Wire/Fcntl.antt =====
-- The layout of fcntl: the command at 0, a flag at 4 and the argument from 8. The commands have the
-- numbers of x86-64 Linux. The argument is memory at a pointer.
use socket_to_rdma.Base.{
  ℕ, ◌^◌, ◌<◌, ◌≡◌, Bool, Option, none, some, List, ◌==◌, if◌then◌else◌, ◌||◌, arith, ◌∙◌,
}
use socket_to_rdma.Base.Buffer.{
  Buffer, store, load, write, read, load-store_self, load-store_ne, length-read, read-store_ne,
  read-write_self,
}

-- sizeof(int), sizeof(struct flock)
abbrev pub flock_sz : ℕ
flock_sz = 32

-- F_GETFD, F_GETFL
abbrev pub takes_none : ℕ → Bool
takes_none cmd = (cmd == 1) || (cmd == 3)

-- F_DUPFD, F_SETFD, F_SETFL
abbrev pub takes_int : ℕ → Bool
takes_int cmd = (cmd == 0) || ((cmd == 2) || (cmd == 4))

-- F_GETLK, F_SETLK, F_SETLKW
abbrev pub takes_flock : ℕ → Bool
takes_flock cmd = (cmd == 5) || ((cmd == 6) || (cmd == 7))

-- the cases of the switch over the command, as the flag that each sets
unfoldable pub fcntl_flag : ℕ → ℕ
fcntl_flag cmd =
    if takes_none cmd then 0 else if takes_int cmd then 1 else if takes_flock cmd then 2 else 0

unfoldable pub put_arg : Buffer → ℕ → Option Buffer → Buffer
put_arg m flag none = m
put_arg m flag (some arg) =
    if flag == 1
    then write m 8 (read arg 0 4)
    else if flag == 2
    then write m 8 (read arg 0 flock_sz)
    else m

-- The message, and what `*flag` holds afterwards; what it held before is not read.
unfoldable pub serialize_fcntl_dt : Buffer → (cmd : ℕ) → Option Buffer → Buffer × ℕ
unfolding fcntl_flag put_arg
serialize_fcntl_dt m cmd arg =
    let flag = fcntl_flag cmd in (store 4 (store 4 (put_arg m flag arg) 0 cmd) 4 flag, flag)

pub record FcntlArgs : Type 0 where
  pub flag : ℕ
  pub cmd : ℕ
  pub arg : Option (List ℕ)

-- The card's reader: the argument is a copy in fresh memory, or NULL.
unfoldable pub get_arg : Buffer → ℕ → Option (List ℕ)
get_arg m flag =
    if flag == 1 then some (read m 8 4) else if flag == 2 then some (read m 8 flock_sz) else none

unfoldable pub deserialize_fcntl_dt : Buffer → FcntlArgs
unfolding get_arg
deserialize_fcntl_dt m =
    let flag = load 4 m 4 in record { flag = flag; cmd = load 4 m 0; arg = get_arg m flag }

-- the argument that a command takes
abbrev pub arg_of : ℕ → Buffer → Option (List ℕ)
arg_of cmd arg =
    if takes_none cmd
    then none
    else if takes_int cmd
    then some (read arg 0 4)
    else if takes_flock cmd
    then some (read arg 0 flock_sz)
    else none

-- The card reads the command and the argument that the command takes: an `int`, a `struct flock` or
-- none, and none for a command that the switch does not name.
pub fcntl_roundtrip :
    (m : Buffer) (cmd : ℕ) (arg : Buffer)
    → cmd < 2 ^ 32
    → deserialize_fcntl_dt (serialize_fcntl_dt m cmd (some arg)).0
      ≡ record { flag = fcntl_flag cmd; cmd = cmd; arg = arg_of cmd arg }
unfolding serialize_fcntl_dt deserialize_fcntl_dt
fcntl_roundtrip m cmd arg h =
    let flag = fcntl_flag cmd in
    let m0 = put_arg m flag (some arg) in
    let m1 = store 4 m0 0 cmd in
    let small : flag < 2 ^ 32 = ground arith in
    let e0 = load-store_ne 4 4 m1 4 0 flag (omega arith) in
    let e1 = load-store_self 4 m0 0 cmd h in
    let e2 = load-store_self 4 m1 4 flag small in
    let r4 =
      read-store_ne 4 m1 4 flag 8 4 (omega arith) ∙ read-store_ne 4 m0 0 cmd 8 4 (omega arith) in
    let r32 =
      read-store_ne 4 m1 4 flag 8 32 (omega arith) ∙ read-store_ne 4 m0 0 cmd 8 32 (omega arith) in
    let w4 = read-write_self m 8 (read arg 0 4) 4 (length-read arg 0 4) in
    let w32 = read-write_self m 8 (read arg 0 flock_sz) 32 (length-read arg 0 32) in ground arith
