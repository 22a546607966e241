-- ===== src/Rdma/Held.antt =====
-- Which resources are held after a sequence of makings and of calls of their destroys, each taken to
-- succeed; `none` where a destroy is called of what is not held, or is still in use.
use socket_to_rdma.Base.{
  ℕ, Bool, true, false, Option, none, some, List, [], ◌∷◌, ◌==◌, if◌then◌else◌, not, ◌&&◌, ◌||◌,
}
use socket_to_rdma.Rdma.{
  Resource, cm_event_channel, cm_server_id, cm_client_id, pd, io_completion_channel, client_cq,
  client_qp, req_mr, server_metadata_mr, rtn_mr, client_metadata_mr, Op, made, destroyed,
}

abbrev pub number : Resource → ℕ
number cm_event_channel = 0
number cm_client_id = 1
number pd = 2
number io_completion_channel = 3
number client_cq = 4
number client_qp = 5
number req_mr = 6
number server_metadata_mr = 7
number rtn_mr = 8
number client_metadata_mr = 9
number cm_server_id = 10

abbrev pub is_held : Resource → List Resource → Bool
is_held r [] = false
is_held r (q ∷ qs) = (number r == number q) || is_held r qs

-- what is not to be destroyed before the other: the library's manual pages
abbrev pub uses : (user used : Resource) → Bool
uses cm_client_id cm_event_channel = true
uses cm_server_id cm_event_channel = true
uses client_qp cm_client_id = true
uses client_qp client_cq = true
uses client_qp pd = true
uses client_cq io_completion_channel = true
uses req_mr pd = true
uses server_metadata_mr pd = true
uses rtn_mr pd = true
uses client_metadata_mr pd = true
uses _ _ = false

abbrev pub in_use : Resource → List Resource → Bool
in_use r [] = false
in_use r (q ∷ qs) = uses q r || in_use r qs

abbrev pub without : Resource → List Resource → List Resource
without r [] = []
without r (q ∷ qs) = if number r == number q then qs else q ∷ without r qs

-- What is held after these steps, if nothing is made twice, and nothing is destroyed that is not held
-- or is in use.
unfoldable pub held_after : List Op → List Resource → Option (List Resource)
held_after [] qs = some qs
held_after (made r ∷ os) qs =
    let rest = held_after os (r ∷ qs) in if is_held r qs then none else rest
held_after (destroyed r ∷ os) qs =
    let rest = held_after os (without r qs) in
    if is_held r qs && not (in_use r qs) then rest else none
