-- ===== src/System/Interchange.antt =====
-- The two declarations of the messages, jw-swarm-fleet-manager/src/proto.rs and
-- jw-swarm-nodes/linux/src/proto.rs, as one type with one codec.
use jw_swarm.Proto.Codec as FleetCodec
