-- ===== src/Host/Exported/Stack.antt =====
-- is_called_from_rdma_client of hook.c: whether a library that the connection stands on made the
-- call, by the names of the frames on the stack. `strstr` is the C library's.
use Prim.Native.Char.{code}
use Prim.Native.String.{String}
use socket_to_rdma.Base.{
  ℕ, ◌≡◌, refl, ap, ◌↔◌, ◌⊎◌, inl, inr, Bool, true, false, ◌||◌, ◌&&◌, ◌==◌, List, [], ◌∷◌, ◌++◌,
  if◌then◌else◌, arith, Bool-cases, take,
}

-- the bytes of a text
abbrev pub bytes : String → List ℕ
bytes String.[] = []
bytes (String.◌∷◌ c s) = code c ∷ bytes s

unfoldable pub starts_with : (needle hay : List ℕ) → Bool
starts_with [] hay = true
starts_with (n ∷ needle) [] = false
starts_with (n ∷ needle) (h ∷ hay) = (n == h) && starts_with needle hay

-- `strstr(hay, needle) != NULL`
unfoldable pub strstr : (hay needle : List ℕ) → Bool
unfolding starts_with
strstr [] needle = starts_with needle []
strstr (h ∷ hay) needle = starts_with needle (h ∷ hay) || strstr hay needle

abbrev pub librdma_client_name : List ℕ
librdma_client_name = bytes "librdma_client"

abbrev pub rda_rdma_name : List ℕ
rda_rdma_name = bytes "rda_rdma"

abbrev pub libibverbs_name : List ℕ
libibverbs_name = bytes "libibverbs"

abbrev pub client_prepare_connection_name : List ℕ
client_prepare_connection_name = bytes "client_prepare_connection"

-- the loop over the frames
unfoldable pub called_loop : List (List ℕ) → Bool
unfolding strstr
called_loop [] = false
called_loop (f ∷ functions) =
    let rest = called_loop functions in
    if strstr f librdma_client_name
    then true
    else if strstr f rda_rdma_name
    then true
    else if strstr f libibverbs_name
    then true
    else if strstr f client_prepare_connection_name
    then true
    else rest

-- `stack` has the names of the caller's frames, from the innermost; `backtrace` gives ten at most.
unfoldable pub is_called_from_rdma_client : (stack : List (List ℕ)) → Bool
unfolding called_loop
is_called_from_rdma_client stack = called_loop (take 10 stack)

-- a text that contains another
abbrev pub Contains : (hay needle : List ℕ) → Type 0
Contains hay needle = (pre : List ℕ) × (post : List ℕ) × (hay ≡ pre ++ (needle ++ post))

-- a frame whose name contains one of the four
abbrev pub IsLibrary : List ℕ → Type 0
IsLibrary f =
    Contains f librdma_client_name
    ⊎ (Contains f rda_rdma_name
        ⊎ (Contains f libibverbs_name ⊎ Contains f client_prepare_connection_name))

abbrev pub IsNamed : List (List ℕ) → Type 0
IsNamed stack =
    (before : List (List ℕ)) × (f : List ℕ) × (after : List (List ℕ)) × (stack
      ≡ before ++ (f ∷ after))
    × IsLibrary f

starts_with-append :
    (needle hay : List ℕ) → starts_with needle hay ≡ true → (post : List ℕ) × (hay ≡ needle ++ post)
unfolding starts_with
starts_with-append [] hay h = (hay, refl)
starts_with-append (n ∷ needle) [] h = absurd (ground arith)
starts_with-append (n ∷ needle) (x ∷ hay) h =
    let same : n ≡ x = ground arith in
    let rest : starts_with needle hay ≡ true = ground arith in
    let (post, e) = starts_with-append needle hay rest in (post, cc (same, e))

append-starts_with : (needle post : List ℕ) → starts_with needle (needle ++ post) ≡ true
unfolding starts_with
append-starts_with [] post = refl
append-starts_with (n ∷ needle) post = ground (arith, append-starts_with needle post)

strstr-Contains : (hay needle : List ℕ) → strstr hay needle ≡ true → Contains hay needle
unfolding strstr
strstr-Contains [] needle h = let (post, e) = starts_with-append needle [] h in ([], post, e)
strstr-Contains (x ∷ hay) needle h = elim (Bool-cases (starts_with needle (x ∷ hay))) [
  | inl here ↦ let (post, e) = starts_with-append needle (x ∷ hay) here in ([], post, e)
  | inr later ↦
      let rest : strstr hay needle ≡ true = ground arith in
      let (pre, post, e) = strstr-Contains hay needle rest in (x ∷ pre, post, ap (λ l. x ∷ l) e)
]

strstr-append : (pre needle post : List ℕ) → strstr (pre ++ (needle ++ post)) needle ≡ true
unfolding strstr
strstr-append [] [] [] = refl
strstr-append [] [] (p ∷ post) = refl
strstr-append [] (n ∷ needle) post = ground (arith, append-starts_with (n ∷ needle) post)
strstr-append (p ∷ pre) needle post = ground (arith, strstr-append pre needle post)

Contains-strstr : (hay needle : List ℕ) → Contains hay needle → strstr hay needle ≡ true
Contains-strstr hay needle (pre, post, e) = rw e (strstr-append pre needle post)

called_or :
    (f : List ℕ) (fs : List (List ℕ))
    → called_loop (f ∷ fs) ≡ true
    → IsLibrary f ⊎ (called_loop fs ≡ true)
unfolding called_loop
called_or f fs h = elim (Bool-cases (strstr f librdma_client_name)) [
  | inl a ↦ inl (inl (strstr-Contains f _ a))
  | inr a ↦ elim (Bool-cases (strstr f rda_rdma_name)) [
    | inl b ↦ inl (inr (inl (strstr-Contains f _ b)))
    | inr b ↦ elim (Bool-cases (strstr f libibverbs_name)) [
      | inl c ↦ inl (inr (inr (inl (strstr-Contains f _ c))))
      | inr c ↦ elim (Bool-cases (strstr f client_prepare_connection_name)) [
        | inl d ↦ inl (inr (inr (inr (strstr-Contains f _ d))))
        | inr d ↦ inr (ground arith)
      ]
    ]
  ]
]

library-called : (f : List ℕ) (fs : List (List ℕ)) → IsLibrary f → called_loop (f ∷ fs) ≡ true
unfolding called_loop
library-called f fs (inl a) = let e = Contains-strstr f librdma_client_name a in ground arith
library-called f fs (inr (inl b)) = let e = Contains-strstr f rda_rdma_name b in ground arith
library-called f fs (inr (inr (inl c))) =
    let e = Contains-strstr f libibverbs_name c in ground arith
library-called f fs (inr (inr (inr d))) =
    let e = Contains-strstr f client_prepare_connection_name d in ground arith

later-called :
    (f : List ℕ) (fs : List (List ℕ)) → called_loop fs ≡ true → called_loop (f ∷ fs) ≡ true
unfolding called_loop
later-called f fs h = ground arith

no_frame : ¬ (called_loop [] ≡ true)
unfolding called_loop
no_frame h = ground arith

loop-IsNamed : (fs : List (List ℕ)) → called_loop fs ≡ true → IsNamed fs
loop-IsNamed [] h = absurd (no_frame h)
loop-IsNamed (f ∷ fs) h = elim (called_or f fs h) [
  | inl is ↦ ([], f, fs, refl, is)
  | inr rest ↦
      let (before, g, after, e, is) = loop-IsNamed fs rest in
      (f ∷ before, g, after, ap (λ l. f ∷ l) e, is)
]

append-called :
    (before : List (List ℕ)) (f : List ℕ) (after : List (List ℕ))
    → IsLibrary f
    → called_loop (before ++ (f ∷ after)) ≡ true
append-called [] f after is = library-called f after is
append-called (g ∷ before) f after is = later-called g _ (append-called before f after is)

IsNamed-loop : (fs : List (List ℕ)) → IsNamed fs → called_loop fs ≡ true
IsNamed-loop fs (before, f, after, e, is) = rw e (append-called before f after is)

-- The function answers 1 just when the name of one of the ten innermost frames contains the name of
-- the library, of the two that it stands on or of the function that prepares a connection.
pub is_called_from_rdma_client-IsNamed :
    (stack : List (List ℕ)) → (is_called_from_rdma_client stack ≡ true) ↔ IsNamed (take 10 stack)
unfolding is_called_from_rdma_client
is_called_from_rdma_client-IsNamed stack =
    (loop-IsNamed (take 10 stack), IsNamed-loop (take 10 stack))
