-- ===== src/WebSocket/Event.antt =====
-- `WebSocket::Event` of src/include/websocket.hpp: what `next` found in the bytes fed.
pub data Event : Type 0 where
  need_more opened message reply closed failed : Event
