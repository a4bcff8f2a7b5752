-- ===== src/PrivVal.antt =====
-- privval/file.go: the file-backed private validator, which must never sign two different messages
-- for one height, round and step.
--
-- A method returns the validator with its result, an error or a panic. A panic ends the process,
-- which starts again from the state file, so only the file's content matters after one.
-- Parameters: the delimited protobuf encoding (`Wire`), and for each call the private key, the
-- clock and whether the file system takes the write (`Env`). The key file, the random key and
-- `String` are not modelled.
pub mod Codec
pub mod Checks
pub mod Sign
pub mod Log
pub mod Cases
pub mod Safety
pub mod Invariant
pub mod Granted
pub mod DoubleSign
pub mod Progress
mod Tests
