-- ===== src/Util/QuantizedBuffer.antt =====
-- src/util/quantized_buffer.h: a buffer that is read in whole quanta. It holds two quanta at most.
use ouinet.Prelude.{
  ℕ, ◌+◌, ◌*◌, ◌++◌, [], Option, none, some, Bytes, length, take, drop, ltb, if◌then◌else◌,
}

pub record QuantizedBuffer : Type 0 where
  pub size : ℕ
  pub buf : Bytes

-- `put`, which throws `std::length_error` when the buffer is full.
unfoldable pub put_data : QuantizedBuffer → Bytes → Option QuantizedBuffer
put_data b source =
    if ltb (2 * b.size) (length b.buf + length source)
    then none
    else some (record b { buf = b.buf ++ source })

-- `get`: a quantum, or nothing.
unfoldable pub get_quantum : QuantizedBuffer → Bytes × QuantizedBuffer
get_quantum b =
    if ltb (length b.buf) b.size
    then ([], b)
    else (take b.size b.buf, record b { buf = drop b.size b.buf })

unfoldable pub get_rest : QuantizedBuffer → Bytes × QuantizedBuffer
get_rest b = (b.buf, record b { buf = [] })
