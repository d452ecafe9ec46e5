-- ===== src/Tests.antt =====
-- Runs of the model on concrete inputs, and the theorems at inputs that meet their hypotheses.
mod Wire
mod Stream
mod Queue
mod Store
mod Client
mod Io
mod Program
mod Rename
mod System
mod Main
