-- ===== src/Card/Setup/Ends.antt =====
-- The card's set-up ends, where the host's request for a connection and its completion come.
use socket_to_rdma.Base.{◌≡◌}
use socket_to_rdma.Rdma.{connect_request, established, Fabric, Setup}
use socket_to_rdma.Rdma.Ending.{Ending}

module _ (fab : Fabric) where
  -- the event that is taken at this point asks for a connection
  abbrev pub IsAsked : fab.World → Type 0
  IsAsked w =
      ((fab.get_cm_event w).0.value ≡ 0)
      × ((fab.get_cm_event w).1.status ≡ 0)
      × ((fab.get_cm_event w).1.event ≡ connect_request)

  -- the event that is taken at this point says that the connection is established
  abbrev pub IsEstablished : fab.World → Type 0
  IsEstablished w =
      ((fab.get_cm_event w).0.value ≡ 0)
      × ((fab.get_cm_event w).1.status ≡ 0)
      × ((fab.get_cm_event w).1.event ≡ established)
