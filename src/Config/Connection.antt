-- ===== src/Config/Connection.antt =====
-- What `MQConfig` derives from its fields, and the names of the platforms (src/config.cpp).
use ibmmq_metrics_exporter.Base.{
  ℕ, zero, suc, ◌+◌, ◌/◌, ◌%◌, Bool, not, ◌&&◌, ◌||◌, [], ◌∷◌, ◌++◌, ltb, ◌==◌, if◌then◌else◌,
  codes,
}
use ibmmq_metrics_exporter.Memory.{Bytes, is_pos}
use ibmmq_metrics_exporter.Pcf.Fold.{is_empty}
use ibmmq_metrics_exporter.Config.Records.{MqConfig}

-- The decimal digits of `n`, before `rest`, for a number of at most `k` digits.
unfoldable pub digits : ℕ → ℕ → Bytes → Bytes
digits zero n rest = rest
digits (suc k) n rest =
    let more = digits k (n / 10) ((48 + n % 10) ∷ rest) in
    if ltb n 10 then (48 + n) ∷ rest else more

-- `std::to_string` of an `int` that is positive: ten digits hold it.
unfoldable pub to_decimal : ℕ → Bytes
unfolding digits
to_decimal n = digits 10 n []

unfoldable pub host_and_port : Bytes → ℕ → Bytes
host_and_port host port = host ++ 40 ∷ (to_decimal port ++ 41 ∷ [])

unfoldable pub get_connection_name : MqConfig → Bytes
get_connection_name mq =
    if not (is_empty mq.connection_name)
    then mq.connection_name
    else if not (is_empty mq.host) && is_pos mq.port
    then host_and_port mq.host mq.port
    else []

unfoldable pub get_user : MqConfig → Bytes
get_user mq = if not (is_empty mq.username) then mq.username else mq.user

unfoldable pub is_client_mode : MqConfig → Bool
unfolding get_connection_name
is_client_mode mq = not (is_empty (get_connection_name mq)) || not (is_empty mq.host)

unfoldable pub platform_name : ℕ → Bytes
platform_name id =
    if id == 5 || id == 11
    then codes "windows"
    else if id == 3
    then codes "unix"
    else if id == 1
    then codes "zos"
    else if id == 4
    then codes "os400"
    else if id == 13
    then codes "nsk"
    else if id == 28
    then codes "appliance"
    else codes "unknown"
