-- ===== src/Io.antt =====
-- What the program's fallible code returns. `err` is `io::Error`, one constructor for each error
-- that the source builds or meets; `fault` is what must never happen: an index or slice out of
-- range, which panics, or a loop that does not end within its fuel.

pub data ErrorKind : Type 0 where
  unexpected_eof invalid_data timed_out other : ErrorKind

pub data Error : Type 0 where
  failed_to_fill_buffer end_of_data truncated_pointer pointer_out_of_bounds : Error
  too_many_jumps truncated_label invalid_label_utf8 : Error
  udp_timeout id_mismatch connect_timeout write_timeout read_timeout : Error
  client_read_timeout client_write_timeout : Error
  os : ErrorKind → Error

abbrev pub kind : Error → ErrorKind
kind failed_to_fill_buffer = unexpected_eof
kind end_of_data = unexpected_eof
kind truncated_pointer = unexpected_eof
kind truncated_label = unexpected_eof
kind pointer_out_of_bounds = invalid_data
kind too_many_jumps = invalid_data
kind invalid_label_utf8 = invalid_data
kind id_mismatch = invalid_data
kind (os k) = k
kind _ = timed_out

pub data Fault : Type 0 where
  out_of_range out_of_fuel : Fault

pub data Result {ℓ} (A : Type ℓ) : Type ℓ where
  ok : A → Result A
  err : Error → Result A
  fault : Fault → Result A

-- The computation ends in a value or an error that the caller can handle.
abbrev pub Returns {ℓ} : {A : Type ℓ} → Result A → Type 0
Returns (ok a) = Unit
Returns (err e) = Unit
Returns (fault f) = ⊥

-- `?`
abbrev pub and_then {ℓ κ} : {A : Type ℓ} {B : Type κ} → Result A → (A → Result B) → Result B
and_then (ok a) f = f a
and_then (err e) f = err e
and_then (fault e) f = fault e
