-- ===== src/DataChannel/Server/Program/Alone.antt =====
-- Each request of the server goes as if it were alone.
use webrtc_echoes.Base.{
  ℕ, zero, suc, ◌+◌, ◌<◌, ◌≡◌, refl, sym, ap, ◌∙◌, ◌≢◌, List, [], ◌∷◌, ◌++◌, map, append_assoc,
  append-nil, arith, ◌==◌, if◌then◌else◌, length, length-snoc, Bytes,
}
use webrtc_echoes.DataChannel.Server.{Library, Event, post_offer}
use webrtc_echoes.DataChannel.Server.Program.Stepwise.{on_all, on_all-begin}
use webrtc_echoes.DataChannel.Server.Program.{
  Happening, arrives, happens, Request, begin, happen, serve,
}

-- What happens to the request `i`.
abbrev pub own : ℕ → List Happening → List Event
own i [] = []
own i (arrives lib body ∷ hs) = own i hs
own i (happens j e ∷ hs) = let rest = own i hs in if i == j then e ∷ rest else rest

-- A request handled by itself.
pub record Session : Type 0 where
  pub library : Library
  pub body : Bytes
  pub events : List Event

abbrev pub alone : Session → Request
alone s = record { library = s.library; handling = post_offer s.library s.body s.events }

-- The requests that come, the first with the number `n`, each with what happens to it.
abbrev pub sessions : ℕ → List Happening → List Session
sessions n [] = []
sessions n (arrives lib body ∷ hs) =
    record { library = lib; body = body; events = own n hs } ∷ sessions (n + 1) hs
sessions n (happens i e ∷ hs) = sessions n hs

own_mine :
    (n k : ℕ) (e : Event) (hs : List Happening) → k ≡ n → own n (happens k e ∷ hs) ≡ e ∷ own n hs
own_mine n k e hs h = ground arith

own_other :
    (n k : ℕ) (e : Event) (hs : List Happening) → k ≢ n → own n (happens k e ∷ hs) ≡ own n hs
own_other n k e hs h = ground arith

-- The request with the number `n` after what happens to it.
abbrev went : List Happening → ℕ → Request → Request
went hs n r = record r { handling = on_all r.library (own n hs) r.handling }

-- The requests from the number `n` on, each after what happens to it.
abbrev advanced : List Happening → ℕ → List Request → List Request
advanced hs n [] = []
advanced hs n (r ∷ rs) = went hs n r ∷ advanced hs (n + 1) rs

advanced-nil : (n : ℕ) (rs : List Request) → advanced [] n rs ≡ rs
advanced-nil n [] = refl
advanced-nil n (r ∷ rs) = ap (◌∷◌ r) (advanced-nil (n + 1) rs)

advanced-arrives :
    (lib : Library) (body : Bytes) (hs : List Happening) (n : ℕ) (rs : List Request)
    → advanced (arrives lib body ∷ hs) n rs ≡ advanced hs n rs
advanced-arrives lib body hs n [] = refl
advanced-arrives lib body hs n (r ∷ rs) =
    ap (◌∷◌ (went hs n r)) (advanced-arrives lib body hs (n + 1) rs)

advanced-snoc :
    (hs : List Happening) (n m : ℕ) (rs : List Request) (r : Request)
    → m ≡ n + length rs
    → advanced hs n (rs ++ r ∷ []) ≡ advanced hs n rs ++ went hs m r ∷ []
advanced-snoc hs n m [] r h = ap (λ k. went hs k r ∷ []) (omega arith)
advanced-snoc hs n m (q ∷ rs) r h =
    ap (◌∷◌ (went hs n q)) (advanced-snoc hs (n + 1) m rs r (omega arith))

-- What happens to an earlier request.
advanced_later :
    (k : ℕ) (e : Event) (hs : List Happening) (n : ℕ) (rs : List Request)
    → k < n
    → advanced hs n rs ≡ advanced (happens k e ∷ hs) n rs
advanced_later k e hs n [] h = refl
advanced_later k e hs n (r ∷ rs) h =
    ap (λ es. record r { handling = on_all r.library es r.handling } ∷ advanced hs (n + 1) rs)
      (sym (own_other n k e hs (omega arith)))
    ∙ ap (◌∷◌ (went (happens k e ∷ hs) n r)) (advanced_later k e hs (n + 1) rs (omega arith))

advanced-happen :
    (n i k : ℕ) (e : Event) (hs : List Happening) (rs : List Request)
    → k ≡ n + i
    → advanced hs n (happen i e rs) ≡ advanced (happens k e ∷ hs) n rs
unfolding happen
advanced-happen n i k e hs [] h = refl
advanced-happen n zero k e hs (r ∷ rs) h =
    ap (λ es. record r { handling = on_all r.library es r.handling } ∷ advanced hs (n + 1) rs)
      (sym (own_mine n k e hs (omega arith)))
    ∙ ap (◌∷◌ (went (happens k e ∷ hs) n r)) (advanced_later k e hs (n + 1) rs (omega arith))
advanced-happen n (suc i) k e hs (r ∷ rs) h =
    ap
      (λ es.
        record r { handling = on_all r.library es r.handling }
        ∷ advanced hs (n + 1) (happen i e rs))
      (sym (own_other n k e hs (omega arith)))
    ∙ ap (◌∷◌ (went (happens k e ∷ hs) n r)) (advanced-happen (n + 1) i k e hs rs (omega arith))

length-happen : (i : ℕ) (e : Event) (rs : List Request) → length (happen i e rs) ≡ length rs
unfolding happen
length-happen i e [] = refl
length-happen zero e (r ∷ rs) = refl
length-happen (suc i) e (r ∷ rs) = ap suc (length-happen i e rs)

-- A request that comes, from its beginning on.
went-begin :
    (lib : Library) (body : Bytes) (hs : List Happening) (n : ℕ)
    → went hs n (record { library = lib; handling = begin lib body })
      ≡ alone (record { library = lib; body = body; events = own n hs })
went-begin lib body hs n =
    ap (λ h. record { library = lib; handling = h }) (on_all-begin lib (own n hs) body)

serve-advanced :
    (hs : List Happening) (rs : List Request)
    → serve hs rs ≡ advanced hs 0 rs ++ map alone (sessions (length rs) hs)
unfolding serve
serve-advanced [] rs = sym (append-nil (advanced [] 0 rs) ∙ advanced-nil 0 rs)
serve-advanced (arrives lib body ∷ hs) rs =
    let new : Request = record { library = lib; handling = begin lib body } in
    serve-advanced hs (rs ++ new ∷ [])
    ∙ ap (λ n. advanced hs 0 (rs ++ new ∷ []) ++ map alone (sessions n hs))
        (sym (length-snoc rs new))
    ∙ ap (λ qs. qs ++ map alone (sessions (length rs + 1) hs))
        (advanced-snoc hs 0 (length rs) rs new (omega arith))
    ∙ append_assoc (advanced hs 0 rs) (went hs (length rs) new ∷ [])
        (map alone (sessions (length rs + 1) hs))
    ∙ ap (λ r. advanced hs 0 rs ++ r ∷ map alone (sessions (length rs + 1) hs))
        (went-begin lib body hs (length rs))
    ∙ ap (λ qs. qs ++ map alone (sessions (length rs) (arrives lib body ∷ hs)))
        (sym (advanced-arrives lib body hs 0 rs))
serve-advanced (happens i e ∷ hs) rs =
    serve-advanced hs (happen i e rs)
    ∙ ap (λ qs. qs ++ map alone (sessions (length (happen i e rs)) hs))
        (advanced-happen 0 i i e hs rs (omega arith))
    ∙ ap (λ n. advanced (happens i e ∷ hs) 0 rs ++ map alone (sessions n hs)) (length-happen i e rs)

pub serve-alone : (hs : List Happening) → serve hs [] ≡ map alone (sessions 0 hs)
serve-alone hs = serve-advanced hs []
