-- ===== src/Wire/Delivery.antt =====
-- The client's envelopes reach the dispatch of the daemon: `write_envelope` of
-- crates/tepegoz-proto/src/codec.rs and `session` of crates/tepegoz-core/src/client.rs.
