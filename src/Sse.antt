-- ===== src/Sse.antt =====
-- src/protocol/sse.rs: the parser of event streams, which is fed bytes, and the encoder of one event.
-- Bytes and characters are numbers. `decode` stands for `String::from_utf8_lossy`. The buffer that the parser cuts
-- lines from by a cursor stands here as the list of what is left of it.
pub mod Chunks
pub mod Trip
use nextapi.Base.{
  ℕ, Bool, true, false, ◌&&◌, ◌||◌, Option, none, some, List, [], ◌∷◌, ◌++◌, eqb, if◌then◌else◌,
}

abbrev pub newline : ℕ
newline = 10

abbrev pub carriage_return : ℕ
carriage_return = 13

abbrev pub space : ℕ
space = 32

abbrev pub Line : Type 0
Line = List ℕ

-- `data:` and `data`
abbrev pub data_colon : Line
data_colon = 100 ∷ 97 ∷ 116 ∷ 97 ∷ 58 ∷ []

abbrev pub data_word : Line
data_word = 100 ∷ 97 ∷ 116 ∷ 97 ∷ []

pub record Parser : Type 0 where
  pub buf : List ℕ
  pub data_lines : List Line

-- The complete lines, each with its newline, of what was read so far of a line and of what follows; and the rest.
unfoldable pub cut : List ℕ → List ℕ → List Line × List ℕ
cut line [] = ([], line)
cut line (b ∷ bytes) =
    let (lines, rest) = cut [] bytes in
    let (lines₁, rest₁) = cut (line ++ (b ∷ [])) bytes in
    if eqb b newline then ((line ++ (b ∷ [])) ∷ lines, rest) else (lines₁, rest₁)

abbrev is_line_end : ℕ → Bool
is_line_end c = eqb c newline || eqb c carriage_return

abbrev end_or : Bool → ℕ → Line → Line
end_or true c [] = []
end_or true c (d ∷ ds) = c ∷ d ∷ ds
end_or false c ds = c ∷ ds

-- `trim_end_matches(['\n', '\r'])`
unfoldable pub trim_end : Line → Line
trim_end [] = []
trim_end (c ∷ cs) = end_or (is_line_end c) c (trim_end cs)

unfoldable pub strip_prefix : Line → Line → Option Line
strip_prefix [] line = some line
strip_prefix (p ∷ ps) [] = none
strip_prefix (p ∷ ps) (c ∷ cs) = if eqb p c then strip_prefix ps cs else none

-- One space after `data:` is not part of the data.
abbrev pub drop_space : Line → Line
drop_space [] = []
drop_space (c ∷ cs) = if eqb c space then cs else c ∷ cs

abbrev pub is_data : Line → Bool
is_data line = elim (strip_prefix data_word line) [ some [] ↦ true | _ ↦ false ]

-- `lines.join("\n")`
unfoldable pub join : List Line → Line
join [] = []
join (l ∷ []) = l
join (l ∷ (k ∷ ls)) = l ++ newline ∷ join (k ∷ ls)

-- A line without its end: the data lines after it, and the events that it ends.
unfoldable pub take_line : List Line → Line → List Line × List Line
unfolding strip_prefix join
take_line [] [] = ([], [])
take_line (d ∷ ds) [] = ([], join (d ∷ ds) ∷ [])
take_line data_lines (c ∷ cs) = elim (strip_prefix data_colon (c ∷ cs)) [
  | some rest ↦ (data_lines ++ (drop_space rest ∷ []), [])
  | none ↦ (if is_data (c ∷ cs) then data_lines ++ ([] ∷ []) else data_lines, [])
]

module _ (decode : List ℕ → Line) where
  unfoldable pub take_lines : List Line → List Line → List Line × List Line
  unfolding take_line trim_end
  take_lines data_lines [] = (data_lines, [])
  take_lines data_lines (l ∷ ls) =
      let (data_lines₁, out) = take_line data_lines (trim_end (decode l)) in
      let (data_lines₂, out₁) = take_lines data_lines₁ ls in (data_lines₂, out ++ out₁)

  -- The events that the bytes complete.
  unfoldable pub feed : Parser → List ℕ → Parser × List Line
  unfolding cut take_lines
  feed p bytes =
      let (lines, rest) = cut [] (p.buf ++ bytes) in
      let (data_lines, out) = take_lines p.data_lines lines in
      (record { buf = rest; data_lines = data_lines }, out)

  -- The data line that the rest of the buffer is, if it is one.
  abbrev last_line : Parser → List Line
  last_line p = elim p.buf [
    | [] ↦ p.data_lines
    | b ∷ bs ↦ elim (strip_prefix data_colon (trim_end (decode (b ∷ bs)))) [
      | none ↦ p.data_lines
      | some rest ↦ p.data_lines ++ (drop_space rest ∷ [])
    ]
  ]

  -- At the end of the stream.
  unfoldable pub finish : Parser → Parser × List Line
  unfolding strip_prefix trim_end join
  finish p = (
    record { buf = []; data_lines = [] },
    elim (last_line p) [ [] ↦ [] | d ∷ ds ↦ join (d ∷ ds) ∷ [] ],
  )

abbrev pub fresh : Parser
fresh = record { buf = []; data_lines = [] }

-- `data.split('\n')`
unfoldable pub split : Line → List ℕ → List Line
split line [] = line ∷ []
split line (c ∷ cs) =
    let ls = split [] cs in
    let ls₁ = split (line ++ (c ∷ [])) cs in if eqb c newline then line ∷ ls else ls₁

unfoldable pub encode_lines : List Line → List ℕ
encode_lines [] = newline ∷ []
encode_lines (l ∷ ls) = data_colon ++ space ∷ l ++ newline ∷ encode_lines ls

unfoldable pub encode_event : List ℕ → List ℕ
unfolding split encode_lines
encode_event data_ = encode_lines (split [] data_)
