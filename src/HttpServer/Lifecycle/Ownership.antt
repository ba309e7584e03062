-- ===== src/HttpServer/Lifecycle/Ownership.antt =====
-- Who frees the objects of libevent and closes the peer connections.
use webrtc_echoes.Base.{
  ℕ, suc, ◌+◌, ◌≡◌, refl, subst, inl, inr, Bool, true, false, Option, none, some, List, [], ◌∷◌,
  ◌++◌, arith, if◌then◌else◌, Bool-cases, list_laws,
}
use webrtc_echoes.PeerFactory.Factory.{
  Factory, construct as construct_factory, destroy as destroy_factory,
}
use webrtc_echoes.HttpServer.Lifecycle.{
  Handle, event_base, http, signal_event, EventCall, allocate, free_handle, Platform, Server, ok,
  construct, init, destroy, stop, ◌>>=◌, on_signal, dispatch_requests, run, serve_until_signal,
  Arrival, dispatch, loop_exit, exited, destroy_local, main, Failure, Result, Exit, throws,
  uncaught, killed, with_requests, exit_from, end_lifetime,
}

abbrev same : Handle → Handle → Bool
same event_base event_base = true
same http http = true
same signal_event signal_event = true
same _ _ = false

abbrev is_allocation : Handle → EventCall → Bool
is_allocation h (allocate k) = same h k
is_allocation _ _ = false

abbrev is_release : Handle → EventCall → Bool
is_release h (free_handle k) = same h k
is_release _ _ = false

abbrev pub tally : (EventCall → Bool) → List EventCall → ℕ
tally p [] = 0
tally p (c ∷ calls) = if p c then suc (tally p calls) else tally p calls

abbrev pub allocations : Handle → List EventCall → ℕ
allocations h = tally (is_allocation h)

abbrev pub releases : Handle → List EventCall → ℕ
releases h = tally (is_release h)

tally-append :
    (p : EventCall → Bool) (xs ys : List EventCall) → tally p (xs ++ ys) ≡ tally p xs + tally p ys
tally-append p [] ys = omega arith
tally-append p (x ∷ xs) ys = ground (arith, tally-append p xs ys)

-- A server that is up: each object allocated once, none freed.
abbrev IsUp : Server → Type 0
IsUp s =
    (s.is_disposed ≡ false)
    × ((h : Handle) → allocations h s.calls ≡ 1)
    × ((h : Handle) → releases h s.calls ≡ 0)

up :
    (platform : Platform) (s : Server)
    → (construct platform [] >>= λ s. init platform s) ≡ ok s
    → IsUp s
unfolding construct init
up platform s e = (ground arith, h1, h2)
  where
    h1 : (h : Handle) → allocations h s.calls ≡ 1
    h1 event_base = ground arith
    h1 http = ground arith
    h1 signal_event = ground arith

    h2 : (h : Handle) → releases h s.calls ≡ 0
    h2 event_base = ground arith
    h2 http = ground arith
    h2 signal_event = ground arith

-- What the destructor adds to the calls, and what the run and the stop do.
abbrev freeing : List EventCall
freeing = loop_exit ∷ free_handle http ∷ free_handle signal_event ∷ free_handle event_base ∷ []

abbrev ending : List EventCall
ending = dispatch ∷ loop_exit ∷ freeing

-- The second call of the destructor adds the same once more where it does not find the server disposed.
abbrev second : Bool → List EventCall
second rereads = if rereads then [] else freeing

end_of : Server → List EventCall
unfolding stop destroy on_signal
end_of s =
    let stopped = stop (on_signal (record s { calls = s.calls ++ dispatch ∷ [] })) in
    (destroy (end_lifetime s.rereads stopped)).calls

end_of-ending :
    (s : Server) → s.is_disposed ≡ false → end_of s ≡ s.calls ++ (ending ++ second s.rereads)
unfolding end_of
end_of-ending s e = elim (Bool-cases s.rereads) [
  | inl r ↦ rw (e, r) (simp list_laws refl)
  | inr r ↦ rw (e, r) (simp list_laws refl)
]

-- How often an object is freed.
abbrev pub times : Bool → ℕ
times rereads = if rereads then 1 else 2

down :
    (s : Server) (h : Handle)
    → IsUp s
    → (allocations h (end_of s) ≡ 1) × (releases h (end_of s) ≡ times s.rereads)
down s h (fresh, made, kept) =
    rw
      (
        end_of-ending s fresh,
        tally-append (is_allocation h) s.calls (ending ++ second s.rereads),
        tally-append (is_release h) s.calls (ending ++ second s.rereads),
        made h,
        kept h,
      )
      (balanced h s.rereads)
  where
    balanced :
        (k : Handle) (r : Bool)
        → (1 + allocations k (ending ++ second r) ≡ 1)
          × (0 + releases k (ending ++ second r) ≡ times r)
    balanced event_base true = (refl, refl)
    balanced http true = (refl, refl)
    balanced signal_event true = (refl, refl)
    balanced event_base false = (refl, refl)
    balanced http false = (refl, refl)
    balanced signal_event false = (refl, refl)

abbrev pub IsClosed : Option Factory → Type 0
IsClosed none = Unit {0}
IsClosed (some f) = f.peer_connections ≡ []

destroy_local-IsClosed : (f : Option Factory) → IsClosed (destroy_local f)
unfolding destroy_factory
destroy_local-IsClosed none = tt
destroy_local-IsClosed (some f) = refl

-- Each object of libevent was allocated once, and freed once or twice, and no connection is left open.
abbrev pub IsBalanced : Bool → Exit → Type 0
IsBalanced rereads (exited f calls) =
    ((h : Handle) → (allocations h calls ≡ 1) × (releases h calls ≡ times rereads)) × IsClosed f
IsBalanced rereads (uncaught e calls) = (h : Handle) → releases h calls ≡ 0
IsBalanced rereads killed = Unit {0}

none_released :
    (platform : Platform) {e : Failure} {calls : List EventCall} (h : Handle)
    → (construct platform [] >>= λ s. init platform s) ≡ throws e calls
    → releases h calls ≡ 0
unfolding construct init
none_released platform event_base e = ground arith
none_released platform http e = ground arith
none_released platform signal_event e = ground arith

signal-IsBalanced :
    (s : Server) (signalled : Bool) (f : Option Factory)
    → IsUp s
    → IsBalanced s.rereads (
        exit_from (
          if signalled
          then some (f, on_signal (record s { calls = s.calls ++ dispatch ∷ [] }))
          else none))
unfolding end_of
signal-IsBalanced s true f u = (λ h. down s h u, destroy_local-IsClosed f)
signal-IsBalanced s false f u = tt

exit_from-IsBalanced :
    (s : Server) (requests : Option (Option Factory))
    → IsUp s
    → IsBalanced s.rereads (exit_from (with_requests s requests))
exit_from-IsBalanced s none u = tt
exit_from-IsBalanced s (some f) u = signal-IsBalanced s s.has_signal f u

rereads-start :
    (platform : Platform) (s : Server)
    → (construct platform [] >>= λ s. init platform s) ≡ ok s
    → s.rereads ≡ platform.rereads
unfolding construct init
rereads-start platform s e = ground arith

module _ {Json : Type 0} where
  -- However the program's start and its requests go: where main comes to its end, the factory keeps no
  -- connection, and each of the three objects of libevent was allocated once and freed by Stop; the
  -- destructor, called a second time on the object whose lifetime Stop has ended, frees all three
  -- again unless what it finds there reads as disposed. Where construction or Init throws, nothing is
  -- ever freed.
  pub main-IsBalanced :
      (platform : Platform) (made : Bool) (rec send : List ℕ) (arrivals : List (Arrival Json))
      → IsBalanced platform.rereads (main platform made rec send arrivals)
  unfolding main serve_until_signal run
  main-IsBalanced platform made rec send arrivals =
      balanced (construct platform [] >>= λ s. init platform s) refl
    where
      balanced :
          (r : Result)
          → (construct platform [] >>= λ s. init platform s) ≡ r
          → IsBalanced platform.rereads
              (serve_until_signal arrivals (construct_factory made rec send) r)
      balanced (ok s) e =
          let requests = dispatch_requests arrivals (some (construct_factory made rec send)) in
          subst (λ b. IsBalanced b (exit_from (with_requests s requests)))
            (rereads-start platform s e) (exit_from-IsBalanced s requests (up platform s e))
      balanced (throws f calls) e = λ h. none_released platform h e
