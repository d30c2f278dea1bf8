-- ===== src/Tests.antt =====
-- Tests: a small concrete machine, and the theorems at concrete inputs.
mod Toy
mod Examples
mod Runs
mod Answers
mod Volume
mod Drivers
mod Served
mod Pushed
mod Occupied
