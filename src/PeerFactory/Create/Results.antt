-- ===== src/PeerFactory/Create/Results.antt =====
-- What calls of PcFactory::CreatePeerConnection keep, and what the destructor closes.
use webrtc_echoes.Base.{
  ℕ, ◌≡◌, refl, sym, ap, ◌∙◌, Bool, true, false, not, ◌&&◌, Option, none, some, List, [], ◌∷◌, ◌++◌,
  append_assoc, append-nil, arith, if◌then◌else◌, ℤ, Bytes,
}
use webrtc_echoes.PeerFactory.Factory.{Factory, close_all, destroy}
use webrtc_echoes.PeerFactory.Create.{
  Library, Answer, offer_text, parse_offer, create_from, add_connection, create_peer_connection,
  crashed,
}

close_all-append : (pcs calls : List ℕ) → close_all pcs calls ≡ calls ++ pcs
unfolding close_all
close_all-append [] calls = sym (append-nil calls)
close_all-append (pc ∷ pcs) calls =
    close_all-append pcs (calls ++ pc ∷ []) ∙ append_assoc calls (pc ∷ []) pcs

-- One call: what the libraries answer during it, and its arguments.
pub record Offer (Json : Type 0) : Type 0 where
  pub library : Library Json
  pub buffer : Bytes
  pub size : ℤ

abbrev pub id_list : Option ℕ → List ℕ
id_list none = []
id_list (some pc) = pc ∷ []

-- What a call, or some calls, leave of a factory.
pub record Stores (f f' : Factory) (pcs : List ℕ) : Type 0 where
  pub connections : f'.peer_connections ≡ f.peer_connections ++ pcs
  pub closed : f'.close_calls ≡ f.close_calls
  pub factory : f'.has_factory ≡ f.has_factory

Stores-none : (f : Factory) → Stores f f []
Stores-none f = record {
  connections = sym (append-nil f.peer_connections);
  closed = refl;
  factory = refl;
}

Stores-unless :
    (has_factory : Bool) (f : Factory) (answer : Answer) (made : Answer × Factory) (b : Bool)
    (pcs : List ℕ)
    → Stores f made.1 (if b then pcs else [])
    → Stores f
        (if not has_factory then (answer, f) else made).1
        (if has_factory && b then pcs else [])
Stores-unless true f answer made b pcs h = h
Stores-unless false f answer made b pcs h = Stores-none f

module _ {Json : Type 0} where
  -- The connection that a call stores: the new one, if there is a factory, the offer is JSON and the
  -- track was added.
  abbrev stored_from : Bool → Library Json → Option Json → List ℕ
  stored_from has_factory lib none = []
  stored_from has_factory lib (some offer) =
      if has_factory && (lib.audio_track && lib.add_track) then id_list lib.new_connection else []

  abbrev pub stored : Bool → Offer Json → List ℕ
  stored has_factory o =
      stored_from has_factory o.library (parse_offer o.library (offer_text o.buffer o.size))

  abbrev pub all_stored : Bool → List (Offer Json) → List ℕ
  all_stored has_factory [] = []
  all_stored has_factory (o ∷ os) = stored has_factory o ++ all_stored has_factory os

  unfoldable pub serve : List (Offer Json) → Factory → List Answer × Factory
  serve [] f = ([], f)
  serve (o ∷ os) f =
      let (answer, f') = create_peer_connection o.library o.buffer o.size f in
      let (answers, f'') = serve os f' in (answer ∷ answers, f'')

  add_connection-Stores :
      (lib : Library Json) (offer : Json) (pc : Option ℕ) (f : Factory)
      → Stores f
          (add_connection lib offer pc f).1
          (if lib.audio_track && lib.add_track then id_list pc else [])
  unfolding add_connection
  add_connection-Stores lib offer none f = record {
    connections = ground (arith, append-nil f.peer_connections);
    closed = refl;
    factory = refl;
  }
  add_connection-Stores lib offer (some pc) f = record {
    connections = ground (arith, append-nil f.peer_connections);
    closed = ground arith;
    factory = ground arith;
  }

  create_from-Stores :
      (lib : Library Json) (offer : Option Json) (f : Factory)
      → Stores f (create_from lib offer f).1 (stored_from f.has_factory lib offer)
  unfolding create_from
  create_from-Stores lib none f = Stores-none f
  create_from-Stores lib (some offer) f =
      Stores-unless f.has_factory f crashed _ (lib.audio_track && lib.add_track) _
        (add_connection-Stores lib offer lib.new_connection f)

  call-Stores :
      (o : Offer Json) (f : Factory)
      → Stores f (create_peer_connection o.library o.buffer o.size f).1 (stored f.has_factory o)
  unfolding create_peer_connection
  call-Stores o f =
      create_from-Stores o.library (parse_offer o.library (offer_text o.buffer o.size)) f

  pub create_peer_connection-factory :
      (lib : Library Json) (buffer : Bytes) (size : ℤ) (f : Factory)
      → (create_peer_connection lib buffer size f).1.has_factory ≡ f.has_factory
  create_peer_connection-factory lib buffer size f =
      (call-Stores (record { library = lib; buffer = buffer; size = size }) f).factory

  -- A sequence of calls stores, in order, the connections of the calls that got as far as a track,
  -- whatever became of their offers afterwards, and closes none.
  pub serve-Stores :
      (os : List (Offer Json)) (f : Factory) → Stores f (serve os f).1 (all_stored f.has_factory os)
  unfolding serve
  serve-Stores [] f = Stores-none f
  serve-Stores (o ∷ os) f =
      let f' : Factory = (create_peer_connection o.library o.buffer o.size f).1 in
      let one = call-Stores o f in
      let rest = serve-Stores os f' in
      record {
        connections =
            rest.connections
            ∙ ap (λ pcs. pcs ++ all_stored f'.has_factory os) one.connections
            ∙ ap (λ b. (f.peer_connections ++ stored f.has_factory o) ++ all_stored b os)
                one.factory
            ∙ append_assoc f.peer_connections (stored f.has_factory o)
                (all_stored f.has_factory os);
        closed = rest.closed ∙ one.closed;
        factory = rest.factory ∙ one.factory;
      }

  -- Destroying a factory, which began without connections, after any sequence of calls closes every
  -- connection that the calls stored, each as often and in the order it was stored, and leaves none.
  pub destroy-serve :
      (os : List (Offer Json)) (f : Factory)
      → f.peer_connections ≡ []
      → let f' = destroy (serve os f).1 in
        (f'.close_calls ≡ f.close_calls ++ all_stored f.has_factory os) × (f'.peer_connections ≡ [])
  unfolding destroy
  destroy-serve os f e =
      let f' : Factory = (serve os f).1 in
      let s = serve-Stores os f in
      (
        close_all-append f'.peer_connections f'.close_calls
            ∙ ap (λ calls. calls ++ f'.peer_connections) s.closed
            ∙ ap (◌++◌ f.close_calls)
                (s.connections ∙ ap (λ pcs. pcs ++ all_stored f.has_factory os) e),
        refl,
      )
