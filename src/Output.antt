-- ===== src/Output.antt =====
-- src/utilities/netcdf: the writers of output files.
pub mod TimeSeries
pub mod NodeStates
