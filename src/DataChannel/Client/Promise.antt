-- ===== src/DataChannel/Client/Promise.antt =====
-- The exceptions of the client and std::promise<void>.
use webrtc_echoes.Base.{Option, none, some, Bytes}

-- `sliced` is a copy made of the static type std::exception, which has lost the text of the exception
-- that it copies. `promise_satisfied` is the std::future_error of a promise that is set twice.
pub data Error : Type 0 where
  bad_optional_access request_failed bad_status bad_json bad_answer remote_refused : Error
  peer_connection_failed unexpected_binary : Error
  unexpected_message : Bytes → Error
  promise_satisfied sliced timeout : Error

pub data Promise : Type 0 where
  unsettled fulfilled : Promise
  broken : Error → Promise

-- set_value and set_exception: the promise after the call, and what the call throws.
abbrev pub set_value : Promise → Promise × Option Error
set_value unsettled = (fulfilled, none)
set_value p = (p, some promise_satisfied)

abbrev pub set_exception : Error → Promise → Promise × Option Error
set_exception e unsettled = (broken e, none)
set_exception e p = (p, some promise_satisfied)

-- std::make_exception_ptr of an exception caught as const std::exception&.
abbrev pub copy_as_base : Error → Error
copy_as_base e = sliced
