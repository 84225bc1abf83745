-- ===== src/Dscp.antt =====
-- admin/omradmin.py: DSCP classes and weights that the router syncs to the server.
pub mod Classes
pub mod Classify
pub mod Desired
pub mod Converge
pub mod Sorting
pub mod Replay
pub mod Pins
pub mod Weights
