-- ===== src/Client/Mqi.antt =====
-- The calls of the MQ library that src/mqclient.cpp makes, with the parts of their structures that
-- it sets or reads (include/ibmmq_exporter/mq_stubs/cmqc.h). What the calls do is a parameter.
use ibmmq_metrics_exporter.Base.{
  ℕ, ◌-◌, ◌^◌, Bool, ◌&&◌, List, [], ◌∷◌, ◌++◌, Option, length, take, drop, replicate, ltb, leb,
  ◌==◌, if◌then◌else◌, is_nil,
}
use ibmmq_metrics_exporter.Memory.{Result, ok, err, out_of_bounds, Bytes}
use ibmmq_metrics_exporter.Pcf.Parser.{until_nul}

-- A completion code and a reason code.
pub record Called : Type 0 where
  pub cc : ℕ
  pub rc : ℕ

abbrev pub has_failed : ℕ → Bool
has_failed cc = cc == 2

abbrev pub mqrc_no_msg_available : ℕ
mqrc_no_msg_available = 2033

abbrev pub mqrc_connection_broken : ℕ
mqrc_connection_broken = 2009

-- MQOO_INPUT_EXCLUSIVE, MQOO_OUTPUT, MQOO_INQUIRE, and MQOO_INPUT_AS_Q_DEF with
-- MQOO_FAIL_IF_QUIESCING.
abbrev pub mqoo_input_exclusive : ℕ
mqoo_input_exclusive = 4

abbrev pub mqoo_output : ℕ
mqoo_output = 16

abbrev pub mqoo_inquire : ℕ
mqoo_inquire = 32

abbrev pub mqoo_input_fail_if_quiescing : ℕ
mqoo_input_fail_if_quiescing = 8193

abbrev pub mqco_none : ℕ
mqco_none = 0

abbrev pub mqco_delete_purge : ℕ
mqco_delete_purge = 2

abbrev pub mqco_remove_sub : ℕ
mqco_remove_sub = 8

-- MQCNO, with the MQCD and the MQCSP that it points to.
pub record ConnectOptions : Type 0 where
  pub options : ℕ
  pub version : ℕ
  pub client_conn : Option (Bytes × Bytes × Bytes)
  pub security_parms : Option (Bytes × Bytes)

pub record Connected : Type 0 where
  pub cc : ℕ
  pub rc : ℕ
  pub hconn : ℕ

-- MQOD.
pub record ObjectDesc : Type 0 where
  pub object_type : ℕ
  pub object_name : Bytes
  pub dynamic_q_name : Bytes

-- What MQOPEN hands back, `object_name` in the descriptor.
pub record Opened : Type 0 where
  pub cc : ℕ
  pub rc : ℕ
  pub hobj : ℕ
  pub object_name : Bytes

-- What MQINQ hands back, with the values that it wrote.
pub record Inquired : Type 0 where
  pub cc : ℕ
  pub rc : ℕ
  pub attrs : List ℕ

-- The MQMD of a message that is put.
pub record PutDesc : Type 0 where
  pub format : Bytes
  pub reply_to_q : Bytes
  pub msg_type : ℕ

pub record GetOptions : Type 0 where
  pub options : ℕ
  pub wait_interval : ℕ

-- What MQGET hands back: the bytes that it wrote into the buffer, the length of the message as an
-- MQLONG, and the MQMD.
pub record Got : Type 0 where
  pub cc : ℕ
  pub rc : ℕ
  pub written : Bytes
  pub datalen : ℕ
  pub msg_type : ℕ
  pub format : Bytes
  pub put_date : Bytes
  pub put_time : Bytes
  pub msg_id : Bytes

-- MQSD.
pub record SubDesc : Type 0 where
  pub options : ℕ
  pub object_string : Bytes

pub record Subscribed : Type 0 where
  pub cc : ℕ
  pub rc : ℕ
  pub hobj : ℕ
  pub hsub : ℕ

-- The library, acting on a world of its own. The first number of a call is the connection's handle;
-- MQCLOSE takes the handle and its options, MQGET the length of the buffer too. `local_platform` is
-- what the compiler's macros make of `platform::local_platform`.
pub record Mqi (W : Type 0) : Type 0 where
  pub mqconnx : Bytes → ConnectOptions → W → Connected × W
  pub mqdisc : ℕ → W → Connected × W
  pub mqopen : ℕ → ObjectDesc → ℕ → W → Opened × W
  pub mqclose : ℕ → ℕ → ℕ → W → Called × W
  pub mqinq : ℕ → ℕ → List ℕ → W → Inquired × W
  pub mqput : ℕ → ℕ → PutDesc → Bytes → W → Called × W
  pub mqget : ℕ → ℕ → GetOptions → ℕ → W → Got × W
  pub mqsub : ℕ → SubDesc → ℕ → W → Subscribed × W
  pub local_platform : ℕ

-- `std::strncpy(field, s.c_str(), sizeof(field) - 1)` into a field of `n` zeros.
unfoldable pub copy_name : ℕ → Bytes → Bytes
copy_name n s = let t = take (n - 1) (until_nul s) in t ++ replicate (n - length t) 0

-- `std::string::find_last_not_of` and `resize`. The second character of the set `" \0"` ends it, so
-- only blanks go, and a name of blanks alone stays as it is.
abbrev pub without_blanks : Bytes → Bytes
without_blanks [] = []
without_blanks (c ∷ cs) =
    let rest = without_blanks cs in if c == 32 && is_nil rest then [] else c ∷ rest

unfoldable pub resolve_name : Bytes → Bytes
resolve_name s = let t = without_blanks s in if is_nil t then s else t

-- A buffer of `size` bytes after the call has written at its front.
unfoldable pub write_front : ℕ → Bytes → Bytes → Bytes
write_front size written buffer = take size written ++ drop (length written) buffer

-- `assign(buffer.begin(), buffer.begin() + datalen)` from a buffer of `size` bytes.
unfoldable pub read_buffer : ℕ → Bytes → ℕ → Result Bytes
read_buffer size buffer datalen =
    if ltb datalen (2 ^ 31) && leb datalen size then ok (take datalen buffer) else err out_of_bounds
