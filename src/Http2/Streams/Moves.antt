-- ===== src/Http2/Streams/Moves.antt =====
-- The states of a stream, after RFC 9113, section 5.1, as servente-http2/src/lib.rs describes them: the
-- moves that a stream may make, and the trails of moves.
use servente.Common.{
  ℕ, ◌≡◌, refl, Bool, true, false, Option, none, some, [], ◌∷◌, ◌++◌, Bytes, length,
}
use servente.Http2.Streams.{
  RequestInTransit, StreamState, idle, open_state, half_closed_remote, closed,
}

-- A stream on which no request has begun, or its request has been taken out.
unfoldable pub is_unused : Option StreamState → Bool
is_unused none = true
is_unused (some idle) = true
is_unused (some (open_state none)) = true
is_unused _ = false

unfoldable pub is_closed : Option StreamState → Bool
is_closed (some closed) = true
is_closed _ = false

-- The request of a stream names that stream and has no trailers yet.
unfoldable pub IsOwnRequest : ℕ → RequestInTransit → Type 0
IsOwnRequest k request = (request.stream_id ≡ k) × (length request.trailers.headers ≡ 0)

pub data Move (k : ℕ) : Option StreamState → Option StreamState → Type 0 where
  begin :
      {from : Option StreamState} (request : RequestInTransit)
      → is_unused from ≡ true
      → IsOwnRequest k request
      → Move k from (some (open_state (some request)))
  receive_data :
      (request : RequestInTransit) (payload : Bytes)
      → Move k
          (some (open_state (some request)))
          (some (open_state (some (record request { body = request.body ++ payload ∷ [] }))))
  take_request :
      (request : RequestInTransit)
      → Move k (some (open_state (some request))) (some (open_state none))
  end_request :
      {from : Option StreamState} → is_closed from ≡ false → Move k from (some half_closed_remote)
  close : {from : Option StreamState} → Move k from (some closed)

pub data Trail (k : ℕ) (from : Option StreamState) : Option StreamState → Type 0 where
  here : Trail k from from
  then_move : {mid to : Option StreamState} → Trail k from mid → Move k mid to → Trail k from to

pub is_unused-is_closed : (o : Option StreamState) → is_unused o ≡ true → is_closed o ≡ false
unfolding is_unused is_closed
is_unused-is_closed none unused = refl
is_unused-is_closed (some idle) unused = refl
is_unused-is_closed (some (open_state none)) unused = refl
is_unused-is_closed (some (open_state (some request))) unused = refl
is_unused-is_closed (some half_closed_remote) unused = refl
is_unused-is_closed (some closed) unused = cc

pub Move-is_closed :
    {k : ℕ} {from to : Option StreamState}
    → Move k from to
    → is_closed from ≡ true
    → is_closed to ≡ true
unfolding is_closed
Move-is_closed {k} {from} (begin request unused own) h =
    let contrary : is_closed from ≡ false = is_unused-is_closed from unused in cc
Move-is_closed (receive_data request payload) h = cc
Move-is_closed (take_request request) h = cc
Move-is_closed (end_request not_closed) h = cc
Move-is_closed close h = refl

-- The condition on an entry of the streams.
unfoldable pub IsTidy : ℕ → Option StreamState → Type 0
unfolding IsOwnRequest
IsTidy k (some (open_state (some request))) = IsOwnRequest k request
IsTidy k _ = Unit

pub Move-IsTidy :
    {k : ℕ} {from to : Option StreamState} → Move k from to → IsTidy k from → IsTidy k to
unfolding IsTidy IsOwnRequest
Move-IsTidy (begin request unused own) h = own
Move-IsTidy (receive_data request payload) h = h
Move-IsTidy (take_request request) h = tt
Move-IsTidy (end_request not_closed) h = tt
Move-IsTidy close h = tt

pub Trail-keeps :
    {k : ℕ} {from to : Option StreamState} (P : Option StreamState → Type 0)
    → ((a b : Option StreamState) → Move k a b → P a → P b)
    → Trail k from to
    → P from
    → P to
Trail-keeps P step here h = h
Trail-keeps P step (then_move path move) h = step _ _ move (Trail-keeps P step path h)
