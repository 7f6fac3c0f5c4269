-- ===== src/Mock/Access.antt =====
-- What the mock answers to whom.
use woodgate.Common.{Text, ◌≡◌, ◌↔◌, ◌⊎◌, true, false, arith}
use woodgate.Common.Number.{Number}
use woodgate.Mock.{
  MockRequest, service, problem, switched, station_key, station_subprotocol, is_authorized,
  is_websocket, has_protocol, connect, fetch,
}

module _ (to_number : Text → Number) (request : MockRequest) where
  -- Without the Station key every response is the greeting of the root, 404 or 401.
  pub unauthorized-refused :
      is_authorized to_number request ≡ false
      → (fetch to_number request ≡ service station_key)
        ⊎ (fetch to_number request ≡ problem 404 "Not found." "not_found")
        ⊎ (fetch to_number request ≡ problem 401 "The Station key is invalid." "unauthorized")
  unfolding fetch
  unauthorized-refused h = ground arith

-- A connection is upgraded, to the Station protocol, exactly if the client asks for a WebSocket
-- and offers that protocol.
pub connect-switched :
    (request : MockRequest)
    → (connect request ≡ switched station_subprotocol)
      ↔ ((is_websocket request.upgrade ≡ true) × (has_protocol request.protocols ≡ true))
unfolding connect
connect-switched request = ground arith
