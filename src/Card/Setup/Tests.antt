-- ===== src/Card/Setup/Tests.antt =====
-- The card's set-up over a library that counts its calls, and one that cannot register the return
-- message.
use socket_to_rdma.Base.{
  ℕ, ◌+◌, ◌≡◌, ◌≢◌, ◌⊎◌, refl, true, false, some, List, [], ◌∷◌, ◌++◌, if◌then◌else◌, ltb, arith,
}
use socket_to_rdma.Rdma.{
  Made, Resource, CmCall, accept, rtn_mr, cm_client_id, connect_request, established, disconnected,
  Fabric, Op, made, Setup,
}
use socket_to_rdma.Rdma.Making.{Documented}
use socket_to_rdma.Card.Setup.{start_thread, connect_client_r_info, disconnect_and_cleanup}
use socket_to_rdma.Card.Setup.Accept.{MayMake, Values}
use socket_to_rdma.Card.Setup.Resources.{card_made, start_thread-keeps}

abbrev counting : Fabric
counting = record {
  World = ℕ;
  create = λ r w. record { ok = true; errno = 5; world = w + 1 };
  destroy = λ r w. w + 1;
  call = λ c w. record { value = 0; errno = 5; world = w + 1 };
  get_cm_event = λ w. (
    record { value = 0; errno = 5; world = w + 1 },
    record {
      status = 0;
      event = if ltb w 6 then connect_request else if ltb w 20 then established else disconnected;
    },
  );
  poll_cq = λ w n. (record { value = 1; errno = 5; world = w + 1 }, 0 ∷ []);
}

counting-Documented : Documented counting
counting-Documented = record {
  call-errno = λ c w h. (omega arith, omega arith);
  create-errno = λ r w h. (omega arith, omega arith);
}

counting-Values : Values counting
counting-Values = record { post_recv-errno = λ w. omega arith; poll_cq-int = λ w n. omega arith }

abbrev no_rtn : Resource → ℕ → Made ℕ
no_rtn rtn_mr w = record { ok = false; errno = 12; world = w }
no_rtn _ w = record { ok = true; errno = 12; world = w + 1 }

abbrev without_rtn : Fabric
without_rtn = record counting { create = no_rtn }

no_rtn-errno : (r : Resource) (w : ℕ) → (no_rtn r w).errno ≡ 12
no_rtn-errno rtn_mr w = refl
no_rtn-errno _ w = refl

without_rtn-Documented : Documented without_rtn
without_rtn-Documented = record {
  call-errno = λ c w h. (omega arith, omega arith);
  create-errno = λ r w h. let e = no_rtn-errno r w in rw e (omega arith, omega arith);
}

without_rtn-Values : Values without_rtn
without_rtn-Values = record { post_recv-errno = λ w. omega arith; poll_cq-int = λ w n. omega arith }

abbrev start : Setup ℕ
start = record { world = 0; ops = [] }

started : (start_thread counting 2 0 start).0 ≡ some 0
unfolding start_thread
started = refl

-- It returns 0 without the return message.
started_without : (start_thread without_rtn 2 0 start).0 ≡ some 0
unfolding start_thread
started_without = refl

-- a further connection, whose events come
abbrev fresh : Setup ℕ
fresh = record { world = 4; ops = [] }

connected : (connect_client_r_info counting 2 fresh).0 ≡ some 0
unfolding connect_client_r_info
connected = refl

ended : (disconnect_and_cleanup counting (connect_client_r_info counting 2 fresh).1).0 ≡ some 0
unfolding connect_client_r_info disconnect_and_cleanup
ended = refl

start_thread-keeps_example :
    (rtn : List Op) × MayMake rtn
    × ((ms : List Op) × (zs : List Op) × (ms ++ zs ≡ card_made rtn)
        × ((start_thread without_rtn 2 0 start).1.ops ≡ ms)
        × (((start_thread without_rtn 2 0 start).0 ≢ some 0) ⊎ (zs ≡ [])))
start_thread-keeps_example =
    start_thread-keeps without_rtn without_rtn-Documented without_rtn-Values 2 0 start

abbrev requested : Setup ℕ
requested = record { world = 0; ops = made cm_client_id ∷ [] }

-- behind an accept each event is that of the establishment
abbrev after_call : CmCall → ℕ → ℕ
after_call accept w = 100
after_call _ w = w + 1

abbrev accepting : Fabric
accepting = record counting {
  call = λ c w. record { value = 0; errno = 5; world = after_call c w };
  get_cm_event = λ w. (
    record { value = 0; errno = 5; world = w + 1 },
    record { status = 0; event = if ltb w 100 then connect_request else established },
  );
}
