-- ===== src/Replay.antt =====
-- replay/replay.go: what the probes and the model answered in a run is recorded, played back in another
-- run, and the two runs are compared. The clock is an argument of `finish`. `json.Marshal` is the
-- parameter `marshal`, `none` for an error. As in the rest of the model, a probe that returns an error
-- returns no result beside it.
pub mod Records
pub mod Probes
pub mod Extractions
pub mod Compare
