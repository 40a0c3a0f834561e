-- ===== src/Envelope.antt =====
-- src/agenttrace/routing_envelope.py. Wrap: `wrap_chat`. Middleware: what `RoutingEnvelopeMiddleware`
-- reads and passes on. Serving: what the application then receives and sends, and the ledger.
-- Transport and Recording hold proofs.
pub mod Wrap
pub mod Middleware
pub mod Serving
pub mod Transport
pub mod Recording
