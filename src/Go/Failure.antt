-- ===== src/Go/Failure.antt =====
-- The error values of the repository: those of the Go library that the code compares with, the
-- messages of `errors.New` and `fmt.Errorf`, and the gRPC status errors of `status.Errorf`.
use droidmole.Base.{ℕ, Bytes}

-- The codes of google.golang.org/grpc/codes that the servers return.
pub data Code : Type 0 where
  invalid_argument failed_precondition internal : Code

pub data Error : Type 0 where
  -- io.EOF, io.ErrUnexpectedEOF, net.ErrClosed
  eof unexpected_eof net_closed : Error
  -- any other error of the operating system, the network or a library, by a number
  system : ℕ → Error
  -- the error of strconv for a text that is no number
  syntax : Bytes → Error
  -- errors.New(text)
  text : Bytes → Error
  -- status.Errorf(code, text)
  status : Code → Bytes → Error
