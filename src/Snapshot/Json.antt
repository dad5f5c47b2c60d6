-- ===== src/Snapshot/Json.antt =====
-- snapshot/json_snapshot_writer.go: every snapshot is a line of a file. The file is the bytes that it
-- holds; json.Marshal and the outcome of os.OpenFile are parameters.
use sigbench.Prelude.{
  ℕ, ◌≡◌, ◌≢◌, refl, ap, sym, ◌∙◌, false, List, [], ◌∷◌, ◌++◌, Option, none, some, arith, Result,
  ok, err, All, ◌==◌, if◌then◌else◌,
}
use mathlib.Core.List.{append_assoc, append-nil}
use sigbench.Counters.{Counters}

pub record JsonSnapshotCountersRow : Type 0 where
  pub time : ℕ
  pub counters : Counters

-- A newline is byte 10.
abbrev pub newline : ℕ
newline = 10

module _ {E : Type 0} (marshal : JsonSnapshotCountersRow → Result E (List ℕ)) where
  -- `opened` is the error of os.OpenFile; the result of f.Write is not looked at.
  unfoldable pub write_json : Option E → ℕ → Counters → List ℕ → List ℕ × Option E
  write_json opened now counters file =
      elim (marshal (record { time = now; counters = counters })) [
        | err e ↦ (file, some e)
        | ok encoded ↦ elim opened [
          | some e ↦ (file, some e)
          | none ↦ (file ++ (encoded ++ newline ∷ []), none)
        ]
      ]

  unfoldable pub write_json_all : List (ℕ × Counters) → List ℕ → List ℕ
  unfolding write_json
  write_json_all [] file = file
  write_json_all ((now, counters) ∷ rest) file =
      write_json_all rest (write_json none now counters file).0

-- The file read back, line by line; `line` is what has been read of the current one.
unfoldable pub read_lines : List ℕ → List ℕ → List (List ℕ)
read_lines line [] = []
read_lines line (c ∷ cs) =
    let rest = read_lines (if c == newline then [] else line ++ c ∷ []) cs in
    if c == newline then line ∷ rest else rest

read_lines-append :
    (e line rest : List ℕ)
    → All (λ c. c ≢ newline) e
    → read_lines line (e ++ newline ∷ rest) ≡ (line ++ e) ∷ read_lines [] rest
unfolding read_lines
read_lines-append [] line rest h = rw (append-nil line)
read_lines-append (c ∷ e) line rest h =
    let other : (c == newline) ≡ false = ground (arith, h.0) in
    rw other (
      read_lines-append e (line ++ c ∷ []) rest h.1
      ∙ ap (λ l. l ∷ read_lines [] rest) (append_assoc line (c ∷ []) e))

module _ {E : Type 0} (marshal : JsonSnapshotCountersRow → Result E (List ℕ))
    (encode : JsonSnapshotCountersRow → List ℕ)
    (encodes : (r : JsonSnapshotCountersRow) → marshal r ≡ ok (encode r))
    (one_line : (r : JsonSnapshotCountersRow) → All (λ c. c ≢ newline) (encode r)) where
  abbrev pub encoded_rows : List (ℕ × Counters) → List (List ℕ)
  encoded_rows [] = []
  encoded_rows ((now, counters) ∷ rest) =
      encode (record { time = now; counters = counters }) ∷ encoded_rows rest

  abbrev pub joined : List (List ℕ) → List ℕ
  joined [] = []
  joined (l ∷ ls) = l ++ newline ∷ joined ls

  write_json-append :
      (now : ℕ) (counters : Counters) (file : List ℕ)
      → (write_json marshal none now counters file).0
        ≡ file ++ (encode (record { time = now; counters = counters }) ++ newline ∷ [])
  unfolding write_json
  write_json-append now counters file =
      ground (arith, encodes (record { time = now; counters = counters }))

  write_json_all-joined :
      (rows : List (ℕ × Counters)) (file : List ℕ)
      → write_json_all marshal rows file ≡ file ++ joined (encoded_rows rows)
  unfolding write_json_all
  write_json_all-joined [] file = sym (append-nil file)
  write_json_all-joined ((now, counters) ∷ rows) file =
      let row : JsonSnapshotCountersRow = record { time = now; counters = counters } in
      rw (write_json-append now counters file) (
        write_json_all-joined rows (file ++ (encode row ++ newline ∷ []))
        ∙ append_assoc file (encode row ++ newline ∷ []) (joined (encoded_rows rows))
        ∙ ap (◌++◌ file) (append_assoc (encode row) (newline ∷ []) (joined (encoded_rows rows))))

  read_lines-joined :
      (ls : List (ℕ × Counters)) → read_lines [] (joined (encoded_rows ls)) ≡ encoded_rows ls
  unfolding read_lines
  read_lines-joined [] = refl
  read_lines-joined ((now, counters) ∷ rows) =
      let row : JsonSnapshotCountersRow = record { time = now; counters = counters } in
      read_lines-append (encode row) [] (joined (encoded_rows rows)) (one_line row)
      ∙ ap (◌∷◌ (encode row)) (read_lines-joined rows)

  -- Where json.Marshal encodes every row without an error and without a newline, the file that any
  -- sequence of successful writes makes of an empty one reads back, line by line, as the encoded rows
  -- in the order in which they were written.
  pub read_lines-write_json_all :
      (rows : List (ℕ × Counters))
      → read_lines [] (write_json_all marshal rows []) ≡ encoded_rows rows
  read_lines-write_json_all rows =
      ap (read_lines []) (write_json_all-joined rows []) ∙ read_lines-joined rows
