-- ===== src/Examples.antt =====
-- Each theorem with conditions, at concrete values.
mod OneLine
mod Logs
mod Runs
mod Parts
mod Driver
mod Calls
