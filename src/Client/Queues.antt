-- ===== src/Client/Queues.antt =====
-- `MQClient::discover_queues` (src/mqclient.cpp).
pub mod Safety
pub mod Names
use ibmmq_metrics_exporter.Base.{
  ℕ, zero, suc, ◌+◌, Bool, true, false, not, ◌&&◌, ◌||◌, List, [], ◌∷◌, ◌++◌, length, take, ltb,
  leb, ◌==◌, if◌then◌else◌, codes, is_same,
}
use ibmmq_metrics_exporter.Memory.{
  Result, ok, err, out_of_fuel, ◌>>=◌, Bytes, read_le32, read_string,
}
use ibmmq_metrics_exporter.Pcf.Fold.{is_empty}
use ibmmq_metrics_exporter.Inquiry.Reader.{trim_mq_string, stops}
use ibmmq_metrics_exporter.Inquiry.Builder.{build_inquire_q_cmd}

abbrev pub starts_with : Bytes → Bytes → Bool
starts_with prefix s = is_same (take (length prefix) s) prefix

-- `s.find(part) != std::string::npos`, for a part that is not empty.
abbrev pub contains : Bytes → Bytes → Bool
contains part [] = false
contains part (c ∷ cs) = starts_with part (c ∷ cs) || contains part cs

-- Temporary queues, the exporter's own, and model queues.
unfoldable pub is_skipped : Bytes → Bool
is_skipped qname =
    starts_with (codes "AMQ.") qname
    || starts_with (codes "EXPORTER.") qname
    || contains (codes "MANAGED.NDURABLE") qname
    || contains (codes "MODEL") qname

-- `std::find(queues.begin(), queues.end(), qname) != queues.end()`.
abbrev pub is_in : Bytes → List Bytes → Bool
is_in qname [] = false
is_in qname (q ∷ queues) = is_same q qname || is_in qname queues

-- What a name does to the list, once it is trimmed.
unfoldable pub add_queue : Bytes → List Bytes → List Bytes
add_queue qname queues =
    if is_empty qname || is_skipped qname || is_in qname queues
    then queues
    else queues ++ qname ∷ []

unfoldable pub string_queue : Bytes → ℕ → List Bytes → Result (List Bytes)
unfolding add_queue
string_queue resp offset queues = do
  param_id ← read_le32 resp (offset + 8)
  str_len ← read_le32 resp (offset + 16)
  if not (param_id == 2016 && ltb 0 str_len && leb (offset + 20 + str_len) (length resp))
      then ok queues
      else do
        qname ← read_string resp (offset + 20) str_len
        ok (add_queue (trim_mq_string qname) queues)

-- The strings of a list, with `k` of them left.
unfoldable pub names_loop : ℕ → Bytes → ℕ → ℕ → List Bytes → Result (List Bytes)
unfolding add_queue
names_loop zero resp str_len pos queues = ok queues
names_loop (suc k) resp str_len pos queues = elim (ltb (length resp) (pos + str_len)) [
  | true ↦ ok queues
  | false ↦ do
    qname ← read_string resp pos str_len
    names_loop k resp str_len (pos + str_len) (add_queue (trim_mq_string qname) queues)
]

unfoldable pub list_queues : Bytes → ℕ → List Bytes → Result (List Bytes)
unfolding names_loop
list_queues resp offset queues = do
  param_id ← read_le32 resp (offset + 8)
  count ← read_le32 resp (offset + 16)
  str_len ← read_le32 resp (offset + 20)
  if param_id == 2016 && ltb 0 str_len
      then names_loop count resp str_len (offset + 24) queues
      else ok queues

unfoldable pub param_queues : Bytes → ℕ → ℕ → ℕ → List Bytes → Result (List Bytes)
unfolding string_queue list_queues
param_queues resp param_type param_len offset queues =
    if param_type == 4 && leb 24 param_len
    then string_queue resp offset queues
    else if param_type == 6 && leb 24 param_len
    then list_queues resp offset queues
    else ok queues

-- A round takes a byte at least, so the response's size is enough fuel.
unfoldable pub queues_loop : ℕ → Bytes → ℕ → List Bytes → Result (List Bytes)
queues_loop zero resp offset queues = err out_of_fuel
queues_loop (suc f) resp offset queues = elim (leb (offset + 8) (length resp)) [
  | false ↦ ok queues
  | true ↦ do
    param_type ← read_le32 resp offset
    param_len ← read_le32 resp (offset + 4)
    elim (stops (length resp) offset param_len) [
      | true ↦ ok queues
      | false ↦ do
        queues' ← param_queues resp param_type param_len offset queues
        queues_loop f resp (offset + param_len) queues'
    ]
]

unfoldable pub response_queues : Bytes → List Bytes → Result (List Bytes)
unfolding queues_loop param_queues
response_queues resp queues = if ltb (length resp) 36 then ok queues else do
  comp_code ← read_le32 resp 24
  if not (comp_code == 0) then ok queues else queues_loop (suc (length resp)) resp 36 queues

unfoldable pub all_queues : List Bytes → List Bytes → Result (List Bytes)
unfolding response_queues
all_queues [] queues = ok queues
all_queues (resp ∷ responses) queues = do
  queues' ← response_queues resp queues
  all_queues responses queues'

-- The queue manager behind `MQClient::send_pcf_command`: the responses to a command.
module _ {W : Type 0} (send_pcf_command : Bytes → W → List Bytes × W) where
  unfoldable pub discover_queues : Bytes → W → Result (List Bytes × W)
  unfolding all_queues
  discover_queues pattern w = do
    let (responses, w') = send_pcf_command (build_inquire_q_cmd pattern) w
    queues ← all_queues responses []
    ok (queues, w')
