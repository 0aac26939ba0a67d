-- ===== src/Ws.antt =====
-- internal/ws: the hub that pushes notifications to the WebSocket clients of an order.
pub mod Hub
