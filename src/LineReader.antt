-- ===== src/LineReader.antt =====
-- internal/utils/line_reader.go: the events of the server as lines. A byte is a number. The scanner of
-- `bufio` is the list of the lines that it still finds, and the error, if any, with which it ends.
pub mod Lines
use uknow.Prelude.{
  ℕ, zero, suc, ◌+◌, min, Bool, true, false, List, [], ◌∷◌, ◌++◌, Option, none, some, length, take,
  drop, ltb, if◌then◌else◌,
}

abbrev pub Bytes : Type 0
Bytes = List ℕ

pub data ReadError (E : Type 0) : Type 0 where
  eof done_reading_lines : ReadError E
  scan_error : E → ReadError E

pub record LineReader (E : Type 0) : Type 0 where
  pub lines : List Bytes
  pub failure : Option E
  pub remaining_prev_line : Bytes

-- The bytes that were copied, and the error that is returned with them.
pub record ReadResult (E : Type 0) : Type 0 where
  pub copied : Bytes
  pub error : Option (ReadError E)

module _ {E : Type 0} where
  unfoldable pub new_line_reader : List Bytes → Option E → LineReader E
  new_line_reader lines failure = record {
    lines = lines;
    failure = failure;
    remaining_prev_line = [];
  }

  -- `n` is the length of the buffer.
  unfoldable pub flush_current_line : ℕ → LineReader E → ReadResult E × LineReader E
  flush_current_line n reader =
      let line = reader.remaining_prev_line in
      let bytes_copied = min n (length line) in
      if ltb bytes_copied (length line)
      then (
        record { copied = take bytes_copied line; error = none },
        record reader { remaining_prev_line = drop bytes_copied line },
      )
      else (
        record { copied = take bytes_copied line; error = some eof },
        record reader { remaining_prev_line = [] },
      )

  -- Where the scanner has no more lines.
  abbrev scanned_all : Option E → ReadError E
  scanned_all none = done_reading_lines
  scanned_all (some e) = scan_error e

  -- `Read` with nothing left of the previous line; an empty line calls it again.
  unfoldable pub read_line : ℕ → List Bytes → Option E → ReadResult E × LineReader E
  unfolding flush_current_line
  read_line n [] failure = (
    record { copied = []; error = some (scanned_all failure) },
    record { lines = []; failure = failure; remaining_prev_line = [] },
  )
  read_line n ([] ∷ lines) failure = read_line n lines failure
  read_line n ((b ∷ line) ∷ lines) failure =
      flush_current_line n
        (record { lines = lines; failure = failure; remaining_prev_line = b ∷ line })

  unfoldable pub read : ℕ → LineReader E → ReadResult E × LineReader E
  unfolding read_line flush_current_line
  read n reader = elim reader.remaining_prev_line [
    | [] ↦ read_line n reader.lines reader.failure
    | _ ∷ _ ↦ flush_current_line n reader
  ]

  -- `io.ReadAll`, with the free room of its buffer at each read. It returns an error other than EOF,
  -- and has no result if there are not enough reads.
  unfoldable pub read_all :
      List ℕ → Bytes → LineReader E → Option (Bytes × Option (ReadError E) × LineReader E)
  read_all [] got reader = none
  read_all (n ∷ sizes) got reader =
      let (r, reader') = read n reader in
      let all = got ++ r.copied in
      elim r.error [
        | none ↦ read_all sizes all reader'
        | some e ↦ elim e [
          | eof ↦ some (all, none, reader')
          | done_reading_lines ↦ some (all, some done_reading_lines, reader')
          | scan_error x ↦ some (all, some (scan_error x), reader')
        ]
      ]

  -- The loop of `sseController` over `io.ReadAll`: the lines up to the error that ends it. Each call
  -- has its own list of sizes.
  unfoldable pub read_lines : List (List ℕ) → LineReader E → Option (List Bytes × ReadError E)
  read_lines [] reader = none
  read_lines (sizes ∷ more) reader = elim (read_all sizes [] reader) [
    | none ↦ none
    | some (line, some e, reader') ↦ some ([], e)
    | some (line, none, reader') ↦ elim (read_lines more reader') [
      | none ↦ none
      | some (rest, e) ↦ some (line ∷ rest, e)
    ]
  ]
