-- ===== src/WebSocket.antt =====
-- `WebSocket` of src/websocket.cpp: the handshake and the frames of SIP over WebSocket.
pub mod Event
pub mod Utf8
pub mod Base64
pub mod Frame
pub mod Http
pub mod State
pub mod Handshake
pub mod Next
pub mod Parsed
pub mod Delivered
pub mod Partial
pub mod Bounds
pub mod Ends
pub mod Lines
pub mod Opening
pub mod Agreed
pub mod BothOpen
pub mod Xor
