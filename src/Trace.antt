-- ===== src/Trace.antt =====
-- What the program does that others can observe besides its traffic: the lines that
-- `CMiscUtil::WriteLog` and `WriteErrorLog` append (MiscUtil.cpp), and the sockets that it
-- opens and closes. A trace lists them, the newest first.
pub mod Logs
use Prim.Native.String.{String}
use dummy_client.Common.{ℕ, List}
use dummy_client.Common.Int.{ℤ}

-- `WriteLog` appends to the INFO file, `WriteErrorLog` to the ERROR file.
pub data Level : Type 0 where
  info error : Level

-- The parameters by `logtype1`, from 0 to 4.
pub data Param : Type 0 where
  no_param : Param
  int_param : ℤ → Param
  long_param : ℤ → Param
  text_param : String → Param
  texts_param : String → String → Param
  -- The same of texts that are not literals.
  chars_param : List ℕ → Param
  chars_params : List ℕ → List ℕ → Param

pub record Entry : Type 0 where
  pub level : Level
  pub message : String
  pub sockfd : ℤ
  pub param : Param

pub data Event : Type 0 where
  logged : Entry → Event
  opened : ℤ → Event
  closed : ℤ → Event

abbrev pub Trace : Type 0
Trace = List Event
