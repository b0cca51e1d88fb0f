-- ===== src/Comm/CommError.antt =====
-- comm/Comm_error.h and comm/Comm_error.cpp. The time of an error is not modelled: it is only
-- logged.
use pds_progetto.Base.{String, Text, codes}

pub data CommErrno : Type 0 where
  ce_not_an_error ce_generic ce_failure ce_unexpected_type ce_unexpected_value : CommErrno
  ce_wrong_type ce_wrong_value ce_not_allowed : CommErrno

-- `boost::system::error_code`: the values that the program names, and any other.
pub data ErrorCode : Type 0 where
  try_again not_connected timed_out shut_down fault other_error : ErrorCode

pub record CommError : Type 0 where
  pub comm_errno : CommErrno
  pub location : Text
  pub message : Text
  pub original_ec : ErrorCode

-- The constructor with its default for `original_ec`.
abbrev pub comm_error : CommErrno → String → String → CommError
comm_error errno location message = record {
  comm_errno = errno;
  location = codes location;
  message = codes message;
  original_ec = try_again;
}

-- `Comm_error{}`.
abbrev pub default_error : CommError
default_error = comm_error ce_generic "System" "Generic error"
