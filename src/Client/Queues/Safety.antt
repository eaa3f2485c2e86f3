-- ===== src/Client/Queues/Safety.antt =====
-- `MQClient::discover_queues` (src/mqclient.cpp) reads inside the responses, and what it returns.
use ibmmq_metrics_exporter.Base.{
  ℕ, zero, suc, ◌+◌, ◌^◌, ◌≤◌, ◌<◌, List, [], ◌∷◌, length, All, arith,
}
use ibmmq_metrics_exporter.Memory.{Result, ok, ◌>>=◌, Bytes, le32_at, read_string}
use ibmmq_metrics_exporter.Memory.Reads.{
  Ensures, Ensures-bind, read_le32-ok, read_string-ok, le32_at-lt,
}
use ibmmq_metrics_exporter.Inquiry.Reader.{trim_mq_string}
use ibmmq_metrics_exporter.Inquiry.Builder.{build_inquire_q_cmd}
use ibmmq_metrics_exporter.Client.Queues.{
  add_queue, string_queue, names_loop, list_queues, param_queues, queues_loop, response_queues,
  all_queues, discover_queues,
}
use ibmmq_metrics_exporter.Client.Queues.Names.{AreQueues, add_queue-AreQueues}

-- A name that lies in the response can be read, and nothing is known of it.
read_name-AreQueues :
    (resp : Bytes) (i n : ℕ) (rest : Bytes → Result (List Bytes))
    → ((qname : Bytes) → Ensures AreQueues (rest qname))
    → i + n ≤ length resp
    → n < 2 ^ 63
    → Ensures AreQueues (read_string resp i n >>= rest)
read_name-AreQueues resp i n rest h k l = rw (read_string-ok resp i n k l) (h _)

string_queue-AreQueues :
    (resp : Bytes) (offset : ℕ) (queues : List Bytes)
    → offset + 24 ≤ length resp
    → length resp < 2 ^ 63
    → AreQueues queues
    → Ensures AreQueues (string_queue resp offset queues)
unfolding string_queue
string_queue-AreQueues resp offset queues h b q = ground (
  arith,
  read_le32-ok resp (offset + 8),
  read_le32-ok resp (offset + 16),
  q,
  read_name-AreQueues resp (offset + 20) (le32_at resp (offset + 16))
      (λ qname. ok (add_queue (trim_mq_string qname) queues))
      (λ qname. add_queue-AreQueues (trim_mq_string qname) queues q),
)

names_loop-AreQueues :
    (k : ℕ) (resp : Bytes) (str_len pos : ℕ) (queues : List Bytes)
    → length resp < 2 ^ 63
    → str_len < 2 ^ 32
    → AreQueues queues
    → Ensures AreQueues (names_loop k resp str_len pos queues)
unfolding names_loop
names_loop-AreQueues zero resp str_len pos queues b s q = q
names_loop-AreQueues (suc k) resp str_len pos queues b s q = ground (
  arith,
  q,
  read_name-AreQueues resp pos str_len
      (λ qname. names_loop k resp str_len (pos + str_len) (add_queue (trim_mq_string qname) queues))
      (λ qname.
        names_loop-AreQueues k resp str_len (pos + str_len)
          (add_queue (trim_mq_string qname) queues) b s
          (add_queue-AreQueues (trim_mq_string qname) queues q)),
)

list_queues-AreQueues :
    (resp : Bytes) (offset : ℕ) (queues : List Bytes)
    → offset + 24 ≤ length resp
    → length resp < 2 ^ 63
    → AreQueues queues
    → Ensures AreQueues (list_queues resp offset queues)
unfolding list_queues
list_queues-AreQueues resp offset queues h b q =
    let count : ℕ = le32_at resp (offset + 16) in
    let str_len : ℕ = le32_at resp (offset + 20) in
    ground (
      arith,
      read_le32-ok resp (offset + 8),
      read_le32-ok resp (offset + 16),
      read_le32-ok resp (offset + 20),
      q,
      names_loop-AreQueues count resp str_len (offset + 24) queues b (le32_at-lt resp (offset + 20))
          q,
    )

param_queues-AreQueues :
    (resp : Bytes) (param_type param_len offset : ℕ) (queues : List Bytes)
    → length resp < 2 ^ 63
    → AreQueues queues
    → offset + param_len ≤ length resp
    → Ensures AreQueues (param_queues resp param_type param_len offset queues)
unfolding param_queues
param_queues-AreQueues resp param_type param_len offset queues b q h = ground (
  arith,
  q,
  λ (l : offset + 24 ≤ length resp). string_queue-AreQueues resp offset queues l b q,
  λ (l : offset + 24 ≤ length resp). list_queues-AreQueues resp offset queues l b q,
)

-- The rest of a round once the parameter's length has passed its test.
round-AreQueues :
    (own : Result (List Bytes)) (rest : List Bytes → Result (List Bytes)) (C : Type 0)
    → (C → Ensures AreQueues own)
    → (C → (queues : List Bytes) → AreQueues queues → Ensures AreQueues (rest queues))
    → C
    → Ensures AreQueues (own >>= rest)
round-AreQueues own rest C h k c = Ensures-bind AreQueues AreQueues own rest (h c) (k c)

queues_loop-AreQueues :
    (f : ℕ) (resp : Bytes) (offset : ℕ) (queues : List Bytes)
    → length resp < 2 ^ 63
    → offset ≤ length resp
    → length resp < f + offset
    → AreQueues queues
    → Ensures AreQueues (queues_loop f resp offset queues)
unfolding queues_loop
queues_loop-AreQueues zero resp offset queues b o m q = absurd (omega arith)
queues_loop-AreQueues (suc f) resp offset queues b o m q =
    let param_type : ℕ = le32_at resp offset in
    let param_len : ℕ = le32_at resp (offset + 4) in
    ground (
      arith,
      read_le32-ok resp offset,
      read_le32-ok resp (offset + 4),
      q,
      round-AreQueues (param_queues resp param_type param_len offset queues)
          (λ queues'. queues_loop f resp (offset + param_len) queues')
          ((0 < param_len) × (offset + param_len ≤ length resp))
          (λ c. param_queues-AreQueues resp param_type param_len offset queues b q c.1)
          (λ c queues' q'.
            queues_loop-AreQueues f resp (offset + param_len) queues' b c.1 (omega (arith, c.0))
              q'),
    )

response_queues-AreQueues :
    (resp : Bytes) (queues : List Bytes)
    → length resp < 2 ^ 63
    → AreQueues queues
    → Ensures AreQueues (response_queues resp queues)
unfolding response_queues
response_queues-AreQueues resp queues b q = ground (
  arith,
  read_le32-ok resp 24,
  q,
  λ (l : 36 ≤ length resp).
      queues_loop-AreQueues (suc (length resp)) resp 36 queues b l (omega arith) q,
)

-- A response is an object in memory.
abbrev pub IsSized : Bytes → Type 0
IsSized resp = length resp < 2 ^ 63

all_queues-AreQueues :
    (responses queues : List Bytes)
    → All IsSized responses
    → AreQueues queues
    → Ensures AreQueues (all_queues responses queues)
unfolding all_queues
all_queues-AreQueues [] queues b q = q
all_queues-AreQueues (resp ∷ responses) queues b q =
    Ensures-bind AreQueues AreQueues (response_queues resp queues) _
      (response_queues-AreQueues resp queues b.0 q)
      (λ queues' q'. all_queues-AreQueues responses queues' b.1 q')

-- Whatever responses of less than 2^63 bytes come back, the queues are discovered to the end and
-- without a read outside a response (or `std::string` refuses a length), and what is returned are
-- different names that are not empty and of none of the kinds that are skipped.
pub discover_queues-AreQueues :
    {W : Type 0} (send_pcf_command : Bytes → W → List Bytes × W) (pattern : Bytes) (w : W)
    → All IsSized (send_pcf_command (build_inquire_q_cmd pattern) w).0
    → Ensures (λ (r : List Bytes × W). AreQueues r.0) (discover_queues send_pcf_command pattern w)
unfolding discover_queues
discover_queues-AreQueues {W} send_pcf_command pattern w b =
    let r = send_pcf_command (build_inquire_q_cmd pattern) w in
    Ensures-bind AreQueues (λ (r : List Bytes × W). AreQueues r.0) (all_queues r.0 []) _
      (all_queues-AreQueues r.0 [] b (record { kept = tt; distinct = tt })) (λ queues q. q)
