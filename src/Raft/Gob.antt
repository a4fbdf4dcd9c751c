-- ===== src/Raft/Gob.antt =====
-- What the peer uses of Go's encoding/gob, as an interface: the package is not part of the
-- repository. A stream is written by one encoder, value after value, and read back by one decoder.
use unique_freshman.Prelude.{ℕ, ◌≡◌, ℤ, List, []}
use unique_freshman.Raft.Types.{LogEntry}

-- A value that `persist` hands to the encoder.
pub data Item (Command : Type 0) : Type 0 where
  int : ℤ → Item Command
  entries : List (LogEntry Command) → Item Command

-- `encode xs` is what the buffer holds once `xs` are encoded, `items b` are the values that the
-- decoder of `b` finds before its first error.
pub record Gob (Bytes Command : Type 0) : Type 0 where
  pub nil_bytes : Bytes
  pub size : Bytes → ℕ
  pub encode : List (Item Command) → Bytes
  pub items : Bytes → List (Item Command)
  pub items-encode : (xs : List (Item Command)) → items (encode xs) ≡ xs
  pub items-nil : items nil_bytes ≡ []
