-- ===== src/DataChannel/Server/Program/Position.antt =====
-- The request that comes to the server after given others.
use webrtc_echoes.Base.{
  ℕ, zero, suc, ◌+◌, ◌≡◌, refl, sym, ap, ◌∙◌, Bool, false, some, some-injective, List, [], ◌∷◌,
  ◌++◌, map, arith, ltb, get_elem?, any, Bytes,
}
use webrtc_echoes.DataChannel.Server.{
  Library, Event, Handling, responded, refused, waiting, post_offer,
}
use webrtc_echoes.DataChannel.Server.Lifetime.{
  completions, after_return, HasLifetime, post_offer-HasLifetime,
}
use webrtc_echoes.DataChannel.Server.Program.{
  Happening, arrives, happens, serve, is_touched, defined,
}
use webrtc_echoes.DataChannel.Server.Program.Alone.{own, Session, sessions, alone, serve-alone}

-- The number of requests that come.
abbrev pub arrivals : List Happening → ℕ
arrivals [] = 0
arrivals (arrives lib body ∷ hs) = suc (arrivals hs)
arrivals (happens i e ∷ hs) = arrivals hs

get_elem?-map :
    {A B : Type 0} (f : A → B) (xs : List A) (i : ℕ) (x : A)
    → get_elem? xs i ≡ some x
    → get_elem? (map f xs) i ≡ some (f x)
get_elem?-map f [] i x h = absurd (cc)
get_elem?-map f (y ∷ xs) zero x h = ap some (ap f (some-injective y x h))
get_elem?-map f (y ∷ xs) (suc i) x h = get_elem?-map f xs i x h

session_at :
    (before after : List Happening) (lib : Library) (body : Bytes) (n m : ℕ)
    → m ≡ n + arrivals before
    → get_elem? (sessions n (before ++ arrives lib body ∷ after)) (arrivals before)
      ≡ some (record { library = lib; body = body; events = own m after })
session_at [] after lib body n m h =
    ap (λ k. some (record { library = lib; body = body; events = own k after })) (omega arith)
session_at (arrives l b ∷ before) after lib body n m h =
    session_at before after lib body (n + 1) m (omega arith)
session_at (happens i e ∷ before) after lib body n m h = session_at before after lib body n m h

-- The request that comes after others.
pub request_at :
    (before after : List Happening) (lib : Library) (body : Bytes)
    → get_elem? (serve (before ++ arrives lib body ∷ after) []) (arrivals before)
      ≡ some (alone (record { library = lib; body = body; events = own (arrivals before) after }))
request_at before after lib body =
    ap (λ rs. get_elem? rs (arrivals before)) (serve-alone (before ++ arrives lib body ∷ after))
    ∙ get_elem?-map alone (sessions 0 (before ++ arrives lib body ∷ after)) (arrivals before) _
        (session_at before after lib body 0 (arrivals before) (omega arith))

-- A gathering of a session completes after its handler has returned.
abbrev pub is_late : Session → Bool
is_late s = ltb 0 (completions (after_return s.events))

is_touched-HasLifetime :
    (es : List Event) (h : Handling)
    → HasLifetime es h
    → ltb 0 (completions (after_return es)) ≡ false
    → is_touched h ≡ false
is_touched-HasLifetime es (responded r c) k l = k.0 ∙ l
is_touched-HasLifetime es (refused r) k l = refl
is_touched-HasLifetime es (waiting c) k l = k.0

untouched :
    (ss : List Session)
    → any is_late ss ≡ false
    → any (λ r. is_touched r.handling) (map alone ss) ≡ false
untouched [] h = refl
untouched (s ∷ ss) h = ground (
  arith,
  is_touched-HasLifetime s.events (post_offer s.library s.body s.events)
      (post_offer-HasLifetime s.library s.body s.events),
  untouched ss,
)

-- Where no gathering completes late, the run is defined.
pub defined-serve :
    (hs : List Happening)
    → any is_late (sessions 0 hs) ≡ false
    → defined (serve hs []) ≡ some (serve hs [])
defined-serve hs h =
    ap defined (serve-alone hs) ∙ rw (untouched (sessions 0 hs) h) (ap some (sym (serve-alone hs)))
