-- ===== src/Platform.antt =====
-- Settings and projections of the control plane: limits.ts, the settings of costs.ts, the hosts of
-- egress.ts, the keys of object-key.ts, and the routing state of routing-state.ts (all under
-- control-plane/src).
pub mod Settings
pub mod Limits
pub mod Hosts
pub mod Keys
pub mod RoutingState
