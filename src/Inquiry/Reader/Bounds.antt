-- ===== src/Inquiry/Reader/Bounds.antt =====
-- Where the reads of a response's parameters (src/pcf_inquiry.cpp) stay inside the buffer, and
-- where their 32-bit sums let them leave it.
use ibmmq_metrics_exporter.Base.{
  ℕ, zero, suc, ◌+◌, ◌-◌, ◌*◌, ◌/◌, ◌%◌, ◌^◌, ◌≤◌, ◌<◌, ◌≡◌, ◌↔◌, length, arith,
}
use ibmmq_metrics_exporter.Memory.{
  err, out_of_bounds, Bytes, le32_at, read_le32, read_le64, read_string,
}
use ibmmq_metrics_exporter.Memory.Reads.{Returns, read_le32-ok, le32_at-lt}
use ibmmq_metrics_exporter.Inquiry.Reader.{
  read_pcf_string, read_pcf_int32, read_pcf_int64, int_values, read_pcf_int_list,
}

pub read_pcf_int32-Returns :
    (d : Bytes) (at plen : ℕ) → at + plen ≤ length d → Returns (read_pcf_int32 d at plen)
unfolding read_pcf_int32 read_le32
read_pcf_int32-Returns d at plen h = ground arith

pub read_pcf_int64-Returns :
    (d : Bytes) (at plen : ℕ) → at + plen ≤ length d → Returns (read_pcf_int64 d at plen)
unfolding read_pcf_int64 read_le64
read_pcf_int64-Returns d at plen h = ground arith

pub read_pcf_string-Returns :
    (d : Bytes) (at plen : ℕ)
    → at + plen ≤ length d
    → length d < 2 ^ 63
    → le32_at d (at + 16) < 2 ^ 32 - 20
    → Returns (read_pcf_string d at plen)
unfolding read_pcf_string read_le32 read_string
read_pcf_string-Returns d at plen h b fits = ground arith

int_values-Returns :
    (d : Bytes) (at k i : ℕ)
    → at + 16 + (i + k) * 4 ≤ length d
    → (i + k) * 4 < 2 ^ 32
    → Returns (int_values d at k i)
unfolding int_values
int_values-Returns d at zero i h b = tt
int_values-Returns d at (suc k) i h b =
    ground (arith, read_le32-ok d (at + 16 + i * 4 % 2 ^ 32), int_values-Returns d at k (i + 1))

pub read_pcf_int_list-Returns :
    (d : Bytes) (at plen : ℕ)
    → at + plen ≤ length d
    → plen < 2 ^ 32
    → le32_at d (at + 12) < 2 ^ 30 - 4
    → Returns (read_pcf_int_list d at plen)
unfolding read_pcf_int_list read_le32
read_pcf_int_list-Returns d at plen h b fits = ground (
  arith,
  int_values-Returns d at ((plen - 16) / 4) 0,
  int_values-Returns d at (le32_at d (at + 12)) 0,
)

-- A string parameter of 24 bytes or more that lies in a message below 2^31 bytes is read outside
-- the message exactly if its length field is at least 2^32 - 20: then `20 + str_len` wraps, and
-- the length is not cut down to what the parameter holds.
pub read_pcf_string_fault :
    (d : Bytes) (at plen : ℕ)
    → 24 ≤ plen
    → at + plen ≤ length d
    → length d < 2 ^ 31
    → (read_pcf_string d at plen ≡ err out_of_bounds) ↔ (2 ^ 32 - 20 ≤ le32_at d (at + 16))
unfolding read_pcf_string read_le32 read_string
read_pcf_string_fault d at plen l h b = (forward, backward)
  where
    forward : read_pcf_string d at plen ≡ err out_of_bounds → 2 ^ 32 - 20 ≤ le32_at d (at + 16)
    forward e = ground (arith, le32_at-lt d (at + 16))

    backward : 2 ^ 32 - 20 ≤ le32_at d (at + 16) → read_pcf_string d at plen ≡ err out_of_bounds
    backward e = ground (arith, le32_at-lt d (at + 16))
