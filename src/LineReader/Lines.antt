-- ===== src/LineReader/Lines.antt =====
-- What is read from the lines, whatever the sizes of the buffers.
use uknow.Prelude.{
  ℕ, suc, ◌≤◌, ◌<◌, min, inl, inr, Bool-cases, ◌≡◌, refl, sym, ap, ◌∙◌, List, [], ◌∷◌, ◌++◌, Option,
  none, some, length, take, drop, length-drop, take-append-drop, ltb, arith,
}
use mathlib.Core.List.{append_assoc}
use uknow.LineReader.{
  Bytes, ReadError, LineReader, ReadResult, eof, done_reading_lines, scan_error, flush_current_line,
  read_line, read, read_all, read_lines, new_line_reader, scanned_all,
}

-- The lines that have a byte, in their order.
abbrev pub non_empty : List Bytes → List Bytes
non_empty [] = []
non_empty ([] ∷ lines) = non_empty lines
non_empty ((b ∷ line) ∷ lines) = (b ∷ line) ∷ non_empty lines

-- Each buffer has room.
abbrev pub AllRoomy : List ℕ → Type 0
AllRoomy [] = Unit
AllRoomy (n ∷ sizes) = (0 < n) × AllRoomy sizes

-- The sizes are enough for every line.
abbrev pub Enough : List ℕ → List Bytes → Type 0
Enough sizes [] = Unit
Enough sizes (line ∷ lines) = (length line ≤ length sizes) × Enough sizes lines

-- Each call has a read at least, room in each, and enough of them for every line.
abbrev pub AllReady : List (List ℕ) → List Bytes → Type 0
AllReady [] lines = Unit
AllReady (sizes ∷ calls) lines =
    ((0 < length sizes) × (AllRoomy sizes) × Enough sizes lines) × AllReady calls lines

AllReady-tail :
    (line : Bytes) (lines : List Bytes) (calls : List (List ℕ))
    → AllReady calls (line ∷ lines)
    → AllReady calls lines
AllReady-tail line lines [] ready = ready
AllReady-tail line lines (sizes ∷ calls) ready =
    ((ready.0.0, ready.0.1, ready.0.2.1), AllReady-tail line lines calls ready.1)

take_whole : (line : Bytes) → take (length line) line ≡ line
take_whole [] = refl
take_whole (b ∷ line) = ap (◌∷◌ b) (take_whole line)

module _ {E : Type 0} where
  abbrev pending : Bytes → List Bytes → Option E → LineReader E
  pending line lines failure = record {
    lines = lines;
    failure = failure;
    remaining_prev_line = line;
  }

  flush_part :
      (n : ℕ) (line : Bytes) (lines : List Bytes) (failure : Option E)
      → n < length line
      → flush_current_line n (pending line lines failure)
        ≡ (record { copied = take n line; error = none }, pending (drop n line) lines failure)
  unfolding flush_current_line
  flush_part n line lines failure h =
      let m : min n (length line) ≡ n = omega arith in ground (arith, m)

  flush_whole :
      (n : ℕ) (line : Bytes) (lines : List Bytes) (failure : Option E)
      → length line ≤ n
      → flush_current_line n (pending line lines failure)
        ≡ (record { copied = line; error = some eof }, pending [] lines failure)
  unfolding flush_current_line
  flush_whole n line lines failure h =
      let m : min n (length line) ≡ length line = omega arith in ground (arith, m, take_whole line)

  -- What `io.ReadAll` does with the result of a read.
  abbrev after_read :
      List ℕ
      → Bytes
      → ReadResult E × LineReader E
      → Option (Bytes × Option (ReadError E) × LineReader E)
  after_read sizes got (r, reader) = elim r.error [
    | none ↦ read_all sizes (got ++ r.copied) reader
    | some e ↦ elim e [
      | eof ↦ some (got ++ r.copied, none, reader)
      | done_reading_lines ↦ some (got ++ r.copied, some done_reading_lines, reader)
      | scan_error x ↦ some (got ++ r.copied, some (scan_error x), reader)
    ]
  ]

  read_all-after_read :
      (n : ℕ) (sizes : List ℕ) (got : Bytes) (reader : LineReader E)
      → read_all (n ∷ sizes) got reader ≡ after_read sizes got (read n reader)
  unfolding read_all
  read_all-after_read n sizes got reader = refl

  after_flush :
      (n : ℕ) (sizes : List ℕ) (got line : Bytes) (lines : List Bytes) (failure : Option E)
      → 0 < n
      → ((got' rest : Bytes)
          → 0 < length rest
          → length rest ≤ length sizes
          → read_all sizes got' (pending rest lines failure)
            ≡ some (got' ++ rest, none, pending [] lines failure))
      → length line ≤ suc (length sizes)
      → after_read sizes got (flush_current_line n (pending line lines failure))
        ≡ some (got ++ line, none, pending [] lines failure)
  after_flush n sizes got line lines failure room more enough =
      elim (Bool-cases (ltb n (length line))) [
        | inl t ↦
            let less : n < length line = ground (arith, t) in
            ap (after_read sizes got) (flush_part n line lines failure less)
            ∙ more (got ++ take n line) (drop n line) (omega (arith, length-drop n line))
                (omega (arith, length-drop n line))
            ∙ ap (λ all. some (all, none, pending [] lines failure))
                (append_assoc got (take n line) (drop n line)
                  ∙ ap (got ++◌) (take-append-drop n line))
        | inr f ↦ ap (after_read sizes got) (flush_whole n line lines failure (ground (arith, f)))
      ]

  -- Reads with enough room, or often enough, give the rest of a line that was begun.
  read_all-pending :
      (sizes : List ℕ) (got line : Bytes) (lines : List Bytes) (failure : Option E)
      → AllRoomy sizes
      → 0 < length line
      → length line ≤ length sizes
      → read_all sizes got (pending line lines failure)
        ≡ some (got ++ line, none, pending [] lines failure)
  unfolding read
  read_all-pending [] got line lines failure roomy some_left enough = absurd (omega arith)
  read_all-pending (n ∷ sizes) got [] lines failure roomy some_left enough = absurd (omega arith)
  read_all-pending (n ∷ sizes) got (b ∷ line) lines failure roomy some_left enough =
      read_all-after_read n sizes got (pending (b ∷ line) lines failure)
      ∙ after_flush n sizes got (b ∷ line) lines failure roomy.0
          (λ got' rest. read_all-pending sizes got' rest lines failure roomy.1) enough

  -- The next call after the lines: the first one that has a byte, or the end.
  abbrev next_line : List Bytes → Option E → Option (Bytes × Option (ReadError E) × LineReader E)
  next_line [] failure = some ([], some (scanned_all failure), pending [] [] failure)
  next_line ([] ∷ lines) failure = next_line lines failure
  next_line ((b ∷ line) ∷ lines) failure = some (b ∷ line, none, pending [] lines failure)

  read_all-next_line :
      (n : ℕ) (sizes : List ℕ) (lines : List Bytes) (failure : Option E)
      → AllRoomy (n ∷ sizes)
      → Enough (n ∷ sizes) lines
      → read_all (n ∷ sizes) [] (pending [] lines failure) ≡ next_line lines failure
  unfolding read read_line
  read_all-next_line n sizes [] failure roomy enough =
      read_all-after_read n sizes [] (pending [] [] failure) ∙ ground arith
  read_all-next_line n sizes ([] ∷ lines) failure roomy enough =
      read_all-after_read n sizes [] (pending [] ([] ∷ lines) failure)
      ∙ sym (read_all-after_read n sizes [] (pending [] lines failure))
      ∙ read_all-next_line n sizes lines failure roomy enough.1
  read_all-next_line n sizes ((b ∷ line) ∷ lines) failure roomy enough =
      read_all-after_read n sizes [] (pending [] ((b ∷ line) ∷ lines) failure)
      ∙ sym (read_all-after_read n sizes [] (pending (b ∷ line) lines failure))
      ∙ read_all-pending (n ∷ sizes) [] (b ∷ line) lines failure roomy (omega arith) enough.0

  -- What the loop does with a call of `io.ReadAll`.
  abbrev after_call :
      List (List ℕ)
      → Option (Bytes × Option (ReadError E) × LineReader E)
      → Option (List Bytes × ReadError E)
  after_call calls none = none
  after_call calls (some (line, some e, reader)) = some ([], e)
  after_call calls (some (line, none, reader)) = elim (read_lines calls reader) [
    | none ↦ none
    | some (rest, e) ↦ some (line ∷ rest, e)
  ]

  read_lines-after_call :
      (sizes : List ℕ) (calls : List (List ℕ)) (reader : LineReader E)
      → read_lines (sizes ∷ calls) reader ≡ after_call calls (read_all sizes [] reader)
  unfolding read_lines
  read_lines-after_call sizes calls reader = ground arith

  after_call-next_line :
      (calls : List (List ℕ)) (lines : List Bytes) (failure : Option E)
      → ((rest : List Bytes)
          → AllReady calls rest
          → length (non_empty rest) < length calls
          → read_lines calls (pending [] rest failure) ≡ some (non_empty rest, scanned_all failure))
      → AllReady calls lines
      → length (non_empty lines) < suc (length calls)
      → after_call calls (next_line lines failure) ≡ some (non_empty lines, scanned_all failure)
  after_call-next_line calls [] failure more ready enough = refl
  after_call-next_line calls ([] ∷ lines) failure more ready enough =
      after_call-next_line calls lines failure more (AllReady-tail [] lines calls ready) enough
  after_call-next_line calls ((b ∷ line) ∷ lines) failure more ready enough =
      ground (arith, more lines (AllReady-tail (b ∷ line) lines calls ready) (omega arith))

  read_lines-from :
      (calls : List (List ℕ)) (lines : List Bytes) (failure : Option E)
      → AllReady calls lines
      → length (non_empty lines) < length calls
      → read_lines calls (pending [] lines failure) ≡ some (non_empty lines, scanned_all failure)
  read_lines-from [] lines failure ready enough = absurd (omega arith)
  read_lines-from ([] ∷ calls) lines failure ready enough = absurd (omega (arith, ready.0.0))
  read_lines-from ((n ∷ sizes) ∷ calls) lines failure ready enough =
      read_lines-after_call (n ∷ sizes) calls (pending [] lines failure)
      ∙ ap (after_call calls) (read_all-next_line n sizes lines failure ready.0.1 ready.0.2)
      ∙ after_call-next_line calls lines failure (λ rest. read_lines-from calls rest failure)
          ready.1 enough

  -- The loop of the client over the lines of the stream, with a buffer that always has room and is read
  -- often enough for each line and for the end: it gives the lines that have a byte, whole and in
  -- their order, whatever the sizes of the buffers, and ends with the error of the scanner, or with
  -- ErrDoneReadingLines if it has none.
  pub read_lines-non_empty :
      (calls : List (List ℕ)) (lines : List Bytes) (failure : Option E)
      → AllReady calls lines
      → length (non_empty lines) < length calls
      → read_lines calls (new_line_reader lines failure)
        ≡ some (non_empty lines, scanned_all failure)
  unfolding new_line_reader
  read_lines-non_empty calls lines failure ready enough =
      read_lines-from calls lines failure ready enough
