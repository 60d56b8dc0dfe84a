-- ===== src/Adb/Raw/Tests.antt =====
-- The theorems about agent/server/adb/raw.go at concrete inputs, with the inputs of raw_test.go.
use droidmole.Base.{
  ◌+◌, ◌<◌, drop, ℕ, ◌^◌, ◌≤◌, ◌≡◌, refl, [], ◌∷◌, ◌++◌, arith, length, some, replicate,
  length-replicate, Bytes, bytes,
}
use droidmole.Go.{ok, panic}
use droidmole.Net.{Conn, broken}
use droidmole.Net.Laws.{arriving}
use droidmole.Net.Samples.{line, line-IsOpen}
use droidmole.Adb.Raw
use droidmole.Adb.Raw.{
  write_raw, write_message, write_shell_blob, read_hex_prefixed_blob, read_shell_blob, send_command,
}
use droidmole.Adb.Raw.Line.{
  read_line, scan, refill, grow, on_line, line_in, drop_cr, finish, max_token,
}
use droidmole.Adb.Raw.Arrivals.{read_line_arrives, taken_in}
use droidmole.Adb.Raw.Framing.{read_hex_prefixed_blob-write_message}
use droidmole.Adb.Raw.Closing.{ErrorsClose, errors_close}

abbrev example_message : Bytes
example_message = bytes "example message"

-- TestNetworkRawConn_WriteMessage
writes_message : (write_message example_message line).1.outgoing ≡ bytes "000fexample message"
unfolding write_message write_raw Raw.Hex.format_04x droidmole.Net.write
writes_message = refl

-- TestNetworkRawConn_WriteShellBlob
writes_shell_blob :
    (write_shell_blob 123 example_message line).1.outgoing ≡ 123 ∷ 15 ∷ 0 ∷ 0 ∷ 0 ∷ example_message
unfolding write_shell_blob write_raw droidmole.Net.write
writes_shell_blob = refl

-- A negative size panics.
negative_size : (read_hex_prefixed_blob (arriving (bytes "-001") line)).0 ≡ panic
unfolding read_hex_prefixed_blob Raw.read_sized Raw.Hex.parse_int droidmole.Net.read_full
negative_size = refl

read_hex_prefixed_blob-write_message_example :
    read_hex_prefixed_blob
      (arriving ((write_message example_message line).1.outgoing ++ 7 ∷ []) line)
    ≡ (ok example_message, arriving (7 ∷ []) line)
read_hex_prefixed_blob-write_message_example =
    read_hex_prefixed_blob-write_message example_message (7 ∷ []) line line line-IsOpen refl refl
      (omega arith)

-- A long message, kept shut so that its length does not unfold.
zeros : Bytes
zeros = replicate 65536 0

length-zeros : 2 ^ 16 ≤ length zeros
unfolding zeros
length-zeros = omega (arith, length-replicate {A = ℕ} 65536 0)

errors_close_example :
    ErrorsClose (write_raw example_message)
    × ErrorsClose (write_message example_message)
    × ErrorsClose (Raw.read_raw 4)
    × ErrorsClose Raw.read_status
    × ErrorsClose read_hex_prefixed_blob
    × ErrorsClose read_shell_blob
    × ErrorsClose (write_shell_blob 1 example_message)
    × ErrorsClose (read_line (λ n. n))
errors_close_example = errors_close example_message 4 1 (λ n. n)

-- A line that arrives byte by byte, less its carriage return.
reads_line :
    (read_line (λ n. 0) (arriving (bytes "line1" ++ 13 ∷ 10 ∷ bytes "line2") line)).0
    ≡ ok (some (some (bytes "line1")))
unfolding read_line scan refill grow on_line line_in drop_cr finish max_token
reads_line = refl

-- The same bytes at once: the second line is lost.
loses_line :
    (read_line (λ n. 4095) (arriving (bytes "line1" ++ 10 ∷ bytes "line2") line)).1.incoming ≡ []
unfolding read_line scan refill grow on_line line_in drop_cr finish max_token
loses_line = refl

-- Reads of at most three bytes: two of them bring the newline, and all of the second read is gone.
takes_two_reads : taken_in (λ n. 2) 13 0 11 5 ≡ 6
unfolding taken_in
takes_two_reads = refl

takes_three_reads : taken_in (λ n. 3) 13 0 11 5 ≡ 8
unfolding taken_in
takes_three_reads = refl

read_line_arrives_example :
    let stream = bytes "line1" ++ 10 ∷ bytes "line2" in
    let taken = taken_in (λ n. 2) (length stream + 2) 0 (length stream) (length (bytes "line1")) in
    (length (bytes "line1") < taken)
    × (read_line (λ n. 2) (arriving stream line)
        ≡ (ok (some (some (drop_cr (bytes "line1")))), arriving (drop taken stream) line))
read_line_arrives_example =
    read_line_arrives (λ n. 2) (bytes "line1") (bytes "line2") line
      (omega arith, (omega arith, (omega arith, (omega arith, (omega arith, tt))))) (omega arith)
      refl
