-- ===== src/Abi/Codes.antt =====
-- The enumerations of include/ukernel_abi.h, with their numbers; the same constants stand at the top
-- of kernel/abi.zig.
use zigu.Base.{ℕ, ◌^◌}

pub data ErrorCode : Type 0 where
  ok : ErrorCode
  err_invalid : ErrorCode
  err_noent : ErrorCode
  err_nomem : ErrorCode
  err_busy : ErrorCode
  err_timeout : ErrorCode
  err_io : ErrorCode
  err_unsupported : ErrorCode
  err_permission : ErrorCode
  err_would_block : ErrorCode
  err_closed : ErrorCode

-- `result_t`
abbrev pub code : ErrorCode → ℕ
code ok = 0
code err_invalid = 1
code err_noent = 2
code err_nomem = 3
code err_busy = 4
code err_timeout = 5
code err_io = 6
code err_unsupported = 7
code err_permission = 8
code err_would_block = 9
code err_closed = 10

pub data Feature : Type 0 where
  feat_vsock : Feature
  feat_rng : Feature
  feat_balloon : Feature
  feat_snapshot : Feature
  feat_tracing : Feature

abbrev pub feature_bit : Feature → ℕ
feature_bit feat_vsock = 2 ^ 0
feature_bit feat_rng = 2 ^ 1
feature_bit feat_balloon = 2 ^ 2
feature_bit feat_snapshot = 2 ^ 3
feature_bit feat_tracing = 2 ^ 4

pub data Capability : Type 0 where
  cap_log : Capability
  cap_time : Capability
  cap_task : Capability
  cap_mem : Capability
  cap_io : Capability
  cap_ipc : Capability
  cap_net : Capability
  cap_trace : Capability

abbrev pub kind : Capability → ℕ
kind cap_log = 1
kind cap_time = 2
kind cap_task = 3
kind cap_mem = 4
kind cap_io = 5
kind cap_ipc = 6
kind cap_net = 7
kind cap_trace = 8

pub data HandleTag : Type 0 where
  handle_task : HandleTag
  handle_io : HandleTag
  handle_ipc : HandleTag
  handle_net : HandleTag
  handle_cap : HandleTag
  handle_span : HandleTag

abbrev pub tag : HandleTag → ℕ
tag handle_task = 0x01
tag handle_io = 0x02
tag handle_ipc = 0x03
tag handle_net = 0x04
tag handle_cap = 0x05
tag handle_span = 0x06

-- The flags of an event.
pub data IoEvent : Type 0 where
  io_readable : IoEvent
  io_writable : IoEvent
  io_hangup : IoEvent
  io_error : IoEvent

abbrev pub event_bit : IoEvent → ℕ
event_bit io_readable = 0x01
event_bit io_writable = 0x02
event_bit io_hangup = 0x04
event_bit io_error = 0x08
