-- ===== src/Pipe.antt =====
-- The pipe between the roles of the server, crates/goliath-pipe/src/lib.rs: what a receiver is
-- given, and why an operation fails. The children model the topic held in memory.
pub mod Memory
mod Samples
use goliath_siem.Base.{ℕ, List, Text}

-- A record is a vector of bytes.
abbrev pub Payload : Type 0
Payload = List ℕ

pub record Delivery : Type 0 where
  pub offset : ℕ
  pub payload : Payload

pub data PipeError : Type 0 where
  not_received : (offset received : ℕ) → PipeError
  unsubscribed : Text → PipeError
  group_name : Text → PipeError
  io : Text → PipeError
