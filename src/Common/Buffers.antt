-- ===== src/Common/Buffers.antt =====
-- What `buffer_append_bytes` promises.
use tnt.Base.{
  ℕ, ◌+◌, ◌-◌, ◌<◌, [], ◌∷◌, ◌++◌, length, take, Bytes, ◌≡◌, sym, arith, take-all, length-append,
  length-take, append-nil,
}
use tnt.Common.{buffer_append_bytes}

-- Bytes that fit are appended whole.
pub append_fits :
    (size : ℕ) (out bytes : Bytes)
    → length out + length bytes < size
    → buffer_append_bytes size out bytes ≡ out ++ bytes
unfolding buffer_append_bytes
append_fits size out [] h = sym (append-nil out)
append_fits size out (b ∷ bytes) h = ground (arith, take-all (size - 1 - length out) (b ∷ bytes))

-- A buffer whose bytes leave room for the NUL still does after the call, whatever is appended.
pub append_bound :
    (size : ℕ) (out bytes : Bytes)
    → length out < size
    → length (buffer_append_bytes size out bytes) < size
unfolding buffer_append_bytes
append_bound size out bytes h = ground (
  arith,
  length-append out (take (size - 1 - length out) bytes),
  length-take (size - 1 - length out) bytes,
)
