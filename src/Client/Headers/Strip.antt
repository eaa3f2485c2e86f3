-- ===== src/Client/Headers/Strip.antt =====
-- What `strip_mqrfh2` (src/mqclient.cpp) leaves of a message.
use ibmmq_metrics_exporter.Base.{
  ℕ, zero, suc, ◌+◌, ◌^◌, ◌<◌, ◌≤◌, ◌≡◌, ◌⊎◌, refl, ap, true, false, [], ◌∷◌, ◌++◌, length,
  length-append, get_or, drop, take, arith,
}
use ibmmq_metrics_exporter.Memory.{ok, Bytes, byte_at, le32_at}
use ibmmq_metrics_exporter.Memory.Reads.{read_le32-ok, read_string-ok}
use ibmmq_metrics_exporter.Client.Headers.{MqMessage, has_magic, strip_mqrfh2}

-- A header of this kind: its magic, and a length that is its own.
pub record IsHeader (header : Bytes) : Type 0 where
  pub magic : has_magic header ≡ true
  pub sized : le32_at header 8 ≡ length header
  pub long : 36 ≤ length header
  pub small : length header < 2 ^ 31

-- Reading in a prefix is reading in the whole.
get_or-prefix : (xs ys : Bytes) (i : ℕ) → i < length xs → get_or (xs ++ ys) i 0 ≡ get_or xs i 0
get_or-prefix [] ys i h = absurd (omega arith)
get_or-prefix (x ∷ xs) ys zero h = refl
get_or-prefix (x ∷ xs) ys (suc i) h = get_or-prefix xs ys i (omega arith)

byte_at-prefix : (xs ys : Bytes) (i : ℕ) → i < length xs → byte_at (xs ++ ys) i ≡ byte_at xs i
unfolding byte_at
byte_at-prefix xs ys i h = rw (get_or-prefix xs ys i h) refl

pub le32_at-prefix :
    (xs ys : Bytes) (i : ℕ) → i + 3 < length xs → le32_at (xs ++ ys) i ≡ le32_at xs i
unfolding le32_at
le32_at-prefix xs ys i h = ground (
  arith,
  byte_at-prefix xs ys i,
  byte_at-prefix xs ys (i + 1),
  byte_at-prefix xs ys (i + 2),
  byte_at-prefix xs ys (i + 3),
)

magic-prefix : (xs ys : Bytes) → 3 < length xs → has_magic (xs ++ ys) ≡ has_magic xs
magic-prefix xs ys h = ground (
  arith,
  byte_at-prefix xs ys 0,
  byte_at-prefix xs ys 1,
  byte_at-prefix xs ys 2,
  byte_at-prefix xs ys 3,
)

take-drop-prefix :
    (m n : ℕ) (xs ys : Bytes) → m + n ≤ length xs → take n (drop m (xs ++ ys)) ≡ take n (drop m xs)
take-drop-prefix zero zero xs ys h = refl
take-drop-prefix zero (suc n) [] ys h = absurd (omega arith)
take-drop-prefix zero (suc n) (x ∷ xs) ys h =
    ap (◌∷◌ x) (take-drop-prefix zero n xs ys (omega arith))
take-drop-prefix (suc m) n [] ys h = absurd (omega arith)
take-drop-prefix (suc m) n (x ∷ xs) ys h = take-drop-prefix m n xs ys (omega arith)

whole : (xs ys : Bytes) → drop (length xs) (xs ++ ys) ≡ ys
whole [] ys = refl
whole (x ∷ xs) ys = whole xs ys

-- A message whose data is a header of this kind, of 36 bytes or more and below 2^31, followed by
-- at least one byte, comes back with what follows the header as its data, and with the eight bytes
-- at 20 of the header as its format; header and rest are shorter than 2^63 bytes together.
pub strip_mqrfh2-append :
    (msg : MqMessage) (header body : Bytes)
    → IsHeader header
    → 0 < length body
    → length header + length body < 2 ^ 63
    → strip_mqrfh2 (record msg { msg_data = header ++ body })
      ≡ ok (record msg { msg_data = body; format = take 8 (drop 20 header) })
unfolding strip_mqrfh2
strip_mqrfh2-append msg header body h l b = ground (
  arith,
  length-append header body,
  h.magic,
  h.sized,
  h.long,
  h.small,
  magic-prefix header body,
  le32_at-prefix header body 8,
  read_le32-ok (header ++ body) 8,
  read_string-ok (header ++ body) 20 8,
  take-drop-prefix 20 8 header body,
  whole header body,
)

-- A message that does not begin with the magic, or is too short for its length, stays as it is.
pub strip_mqrfh2-other :
    (msg : MqMessage)
    → (has_magic msg.msg_data ≡ false) ⊎ (length msg.msg_data ≤ le32_at msg.msg_data 8)
    → strip_mqrfh2 msg ≡ ok msg
unfolding strip_mqrfh2
strip_mqrfh2-other msg h = ground (arith, read_le32-ok msg.msg_data 8, h)
