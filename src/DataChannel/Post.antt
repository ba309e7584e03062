-- ===== src/DataChannel/Post.antt =====
-- The POST of the client's offer (libdatachannel/client.cpp, lines 105 to 140) to the handler of a
-- server, over HTTP. `Handled` is how a call of the handler ends.
use webrtc_echoes.Base.{
  ℕ, ◌≡◌, refl, ap, inl, inr, true, Option, some, ◌==◌, if◌then◌else◌, Bool-cases, Bytes, codes,
  eqb,
}
use webrtc_echoes.DataChannel.Client.Promise.{
  bad_optional_access, request_failed, bad_status, bad_json, bad_answer, remote_refused,
}
use webrtc_echoes.DataChannel.Client.Session.{
  Exchange, Outcome, ok, throws, ◌>>=◌, ◌>>◌, or_throw, check, exchange,
}

abbrev pub offer_path : Bytes
offer_path = codes "/offer"

-- What the client gets, a status and a body or nothing, of the end of a handler call, and elsewhere.
pub record Transport (Handled : Type 0) : Type 0 where
  pub deliver : Handled → Option (ℕ × Bytes)
  pub elsewhere : Bytes → Option (ℕ × Bytes)

-- What the server sends arrives; a server that sends nothing is a request that fails.
pub record IsHttp {Handled : Type 0} (sent : Handled → Option (ℕ × Bytes))
    (http : Transport Handled) : Type 0 where
  pub arrives : (h : Handled) → http.deliver h ≡ sent h

-- The client's libraries, posting to a handler.
abbrev pub posting :
    {Handled : Type 0} → Transport Handled → (Bytes → Handled) → Exchange → Exchange
posting http handle x = record x {
  post =
      λ path body. if eqb path offer_path then http.deliver (handle body) else http.elsewhere path;
}

-- The client sets a description, if its library takes it.
abbrev pub set_or_throw : Exchange → Bytes × Bytes → Outcome (Bytes × Bytes)
set_or_throw x d = if x.set_remote d then ok d else throws remote_refused

-- The client's callback from the result of its POST on.
abbrev pub received : Exchange → Option (ℕ × Bytes) → Outcome (Bytes × Bytes)
received x result = do
  response ← or_throw result request_failed
  check (response.0 == 200) bad_status
  check (x.parse response.1) bad_json
  remote ← or_throw (x.members response.1) bad_answer
  check (x.set_remote remote) remote_refused
  ok remote

pub exchange-received :
    (path : Bytes) (x : Exchange) (offer : Bytes × Bytes)
    → x.local ≡ some offer
    → exchange path x ≡ received x (x.post path (x.dump offer.0 offer.1))
unfolding exchange
exchange-received path x offer e =
    ap
      (λ local. or_throw local bad_optional_access >>= λ local.
        received x (x.post path (x.dump local.0 local.1)))
      e

pub received-read :
    (x : Exchange) (body : Bytes) (d : Bytes × Bytes)
    → x.parse body ≡ true
    → x.members body ≡ some d
    → received x (some (200, body)) ≡ set_or_throw x d
received-read x body d parsed read = elim (Bool-cases (x.set_remote d)) [
  | inl e ↦ rw (parsed, read, e) refl
  | inr e ↦ rw (parsed, read, e) refl
]
