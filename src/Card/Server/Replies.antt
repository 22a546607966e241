-- ===== src/Card/Server/Replies.antt =====
-- How many replies a request gets, and that the reply loop ends.
use socket_to_rdma.Base.{
  ℕ, zero, suc, ◌+◌, ◌-◌, ◌<◌, ◌≤◌, ◌≡◌, ◌≢◌, refl, true, false, none, some, [], ◌∷◌, ◌++◌, arith,
  ◌∙◌,
}
use socket_to_rdma.Card.Env.{Env}
use socket_to_rdma.Card.Server.{
  Reply, Card, chunk, post_write_rtn, write_loop, is_data, write_msg_to_client, reply, clear,
}
use socket_to_rdma.Message.{buffer_size, htonl, RtnMsg}

chunk_bounds : (n : ℕ) → (0 < chunk (suc n)) × (chunk (suc n) ≤ suc n)
chunk_bounds n = ground arith

module _ (env : Env) where
  -- the reply that a state would send
  abbrev pub reply_of : Card env.World → Reply
  reply_of c = record { imm = htonl c.sockfd; rtn = c.rtn }

  write_loop-ne-none :
      (fuel left : ℕ) (c : Card env.World) → left < fuel → write_loop env fuel left c ≢ none
  unfolding write_loop
  write_loop-ne-none zero left c h = absurd (omega arith)
  write_loop-ne-none (suc fuel) zero c h = λ e. cc
  write_loop-ne-none (suc fuel) (suc n) c h = ground (
    arith,
    chunk_bounds n,
    write_loop-ne-none fuel (suc n - chunk (suc n)) (post_write_rtn env c).1,
  )

  -- Whatever the posts answer, the reply loop ends within its fuel.
  pub write_msg-ne-none : (c : Card env.World) → write_msg_to_client env c ≢ none
  unfolding write_msg_to_client
  write_msg-ne-none c = ground (
    arith,
    write_loop-ne-none (suc (12 + c.rtn.rtn_value)) (12 + c.rtn.rtn_value) c (omega arith),
  )

  pub reply-ne-none : (c : Card env.World) → reply env c ≢ none
  unfolding reply
  reply-ne-none c = ground (arith, write_msg-ne-none c)

  -- the posting of a reply that cannot fail
  abbrev pub PostsOk : Type 0
  PostsOk = (w : env.World) (imm : ℕ) (rtn : RtnMsg) → (env.post_send w imm rtn).value ≡ 0

  abbrev pub post_world : Card env.World → env.World
  post_world c = (env.post_send c.world (htonl c.sockfd) c.rtn).world

  abbrev pub posted : Card env.World → Card env.World
  posted c = record c { world = post_world c; sent = c.sent ++ reply_of c ∷ [] }

  post-posted : PostsOk → (c : Card env.World) → post_write_rtn env c ≡ (0, posted c)
  unfolding post_write_rtn
  post-posted ok c = ground (arith, ok c.world (htonl c.sockfd) c.rtn)

  -- the state once a reply is posted and `errno_` reset
  abbrev pub replied : Card env.World → Card env.World
  replied c = let d = posted c in record d { rtn = record d.rtn { errno_ = 0 } }

  -- A reply that is no data, or an empty one, is posted once, and `errno_` is reset.
  pub write_msg_once :
      PostsOk
      → (c : Card env.World) → is_data env c ≡ false
      → write_msg_to_client env c ≡ some (0, replied c)
  unfolding write_msg_to_client
  write_msg_once ok c h = rw (h, post-posted ok c)

  -- the state once data are posted: the first 8 bytes of `data` and `errno_` are reset
  abbrev pub after_data : Card env.World → Card env.World
  after_data d = record d {
    rtn = record { errno_ = 0; rtn_value = d.rtn.rtn_value; bytes = clear d.rtn.bytes 8 };
  }

  loop_end :
      (fuel : ℕ) (left : ℕ) (c : Card env.World)
      → left ≡ 0
      → write_loop env (suc fuel) left c ≡ some (0, c)
  unfolding write_loop
  loop_end fuel zero c h = refl
  loop_end fuel (suc n) c h = absurd (omega arith)

  loop_step :
      PostsOk
      → (fuel left : ℕ) (c : Card env.World) → 0 < left
      → write_loop env (suc fuel) left c ≡ write_loop env fuel (left - chunk left) (posted c)
  unfolding write_loop
  loop_step ok fuel zero c h = absurd (omega arith)
  loop_step ok fuel (suc n) c h = rw (post-posted ok c)

  loop_once :
      PostsOk
      → (fuel left : ℕ) (c : Card env.World) → 1 < fuel
      → 0 < left
      → left < buffer_size
      → write_loop env fuel left c ≡ some (0, posted c)
  loop_once ok zero left c h pos small = absurd (omega arith)
  loop_once ok (suc zero) left c h pos small = absurd (omega arith)
  loop_once ok (suc (suc fuel)) left c h pos small =
      loop_step ok (suc fuel) left c pos
      ∙ loop_end fuel (left - chunk left) (posted c) (ground arith)

  loop_twice :
      PostsOk
      → (fuel left : ℕ) (c : Card env.World) → 2 < fuel
      → buffer_size ≤ left
      → left ≤ buffer_size + 12
      → write_loop env fuel left c ≡ some (0, posted (posted c))
  loop_twice ok zero left c h big fits = absurd (omega arith)
  loop_twice ok (suc fuel) left c h big fits =
      loop_step ok fuel left c (omega arith)
      ∙ loop_once ok fuel (left - chunk left) (posted c) (omega arith) (ground arith) (ground arith)

  -- Data of `rtn_value` bytes that fit one message with its header are posted once.
  pub write_msg_data :
      PostsOk
      → (c : Card env.World) → is_data env c ≡ true
      → c.rtn.rtn_value + 12 < buffer_size
      → write_msg_to_client env c ≡ some (0, after_data (posted c))
  unfolding write_msg_to_client
  write_msg_data ok c h small =
      let total = 12 + c.rtn.rtn_value in
      rw (h, loop_once ok (suc total) total c (omega arith) (omega arith) (omega arith))

  -- Data that do not fit one message with its header, up to the size of the buffer, are posted twice,
  -- as the same whole message both times.
  pub write_msg_twice :
      PostsOk
      → (c : Card env.World) → is_data env c ≡ true
      → buffer_size ≤ c.rtn.rtn_value + 12
      → c.rtn.rtn_value ≤ buffer_size
      → write_msg_to_client env c ≡ some (0, after_data (posted (posted c)))
  unfolding write_msg_to_client
  write_msg_twice ok c h big fits =
      let total = 12 + c.rtn.rtn_value in
      rw (h, loop_twice ok (suc total) total c (omega arith) (omega arith) (omega arith))
