-- ===== src/Dap/Wire.antt =====
-- src/dap/DapClient.ts: the bytes of messages. `#send` writes a header with the length of the
-- content, and `#onData` cuts what it has received into headers and contents. The decoding of UTF-8
-- is the parameter `text`, from bytes to UTF-16 code units.
pub mod Growth
pub mod Decimals
use Prim.Native.Char.{code}
use break_pilot.Common.{
  ℕ, zero, suc, ◌+◌, ◌-◌, ◌*◌, ◌/◌, ◌%◌, String, Bool, true, false, Option, none, some, List, [],
  ◌∷◌, ◌++◌, ◌==◌, nat_eq, if◌then◌else◌, ltb, leb, ◌&&◌, ◌||◌, length, take, drop, or_else,
}

-- The codes of an ASCII text.
abbrev pub codes : String → List ℕ
codes String.[] = []
codes (String.◌∷◌ c s) = code c ∷ codes s

-- "\r\n\r\n"
abbrev pub separator : List ℕ
separator = 13 ∷ 10 ∷ 13 ∷ 10 ∷ []

-- What follows a prefix.
abbrev pub strip : List ℕ → List ℕ → Option (List ℕ)
strip [] bs = some bs
strip (p ∷ ps) [] = none
strip (p ∷ ps) (b ∷ bs) = let rest = strip ps bs in if b == p then rest else none

abbrev pub with_first : ℕ → Option (List ℕ × List ℕ) → Option (List ℕ × List ℕ)
with_first b none = none
with_first b (some (header, after)) = some (b ∷ header, after)

abbrev pub cut_here : ℕ → Option (List ℕ) → Option (List ℕ × List ℕ) → Option (List ℕ × List ℕ)
cut_here b (some after) later = some ([], after)
cut_here b none later = with_first b later

-- The bytes before the first separator, and those after it.
abbrev pub split_header : List ℕ → Option (List ℕ × List ℕ)
split_header [] = none
split_header (b ∷ bs) = let rest = split_header bs in cut_here b (strip separator (b ∷ bs)) rest

abbrev pub lower : ℕ → ℕ
lower c = if leb b'A' c && leb c b'Z' then c + 32 else c

abbrev pub is_digit : ℕ → Bool
is_digit c = leb b'0' c && leb c b'9'

-- `\s`
abbrev pub is_space : ℕ → Bool
is_space c =
    leb 9 c && leb c 13
    || c == 32
    || c == 160
    || c == 0x1680
    || leb 0x2000 c && leb c 0x200a
    || c == 0x2028
    || c == 0x2029
    || c == 0x202f
    || c == 0x205f
    || c == 0x3000
    || c == 0xfeff

-- What follows a prefix that is given in lower case.
abbrev pub strip_any_case : List ℕ → List ℕ → Option (List ℕ)
strip_any_case [] cs = some cs
strip_any_case (p ∷ ps) [] = none
strip_any_case (p ∷ ps) (c ∷ cs) =
    let rest = strip_any_case ps cs in if lower c == p then rest else none

abbrev pub skip_spaces : List ℕ → List ℕ
skip_spaces [] = []
skip_spaces (c ∷ cs) = let rest = skip_spaces cs in if is_space c then rest else c ∷ cs

-- `Number` of the longest run of digits.
abbrev pub more_digits : ℕ → List ℕ → ℕ
more_digits n [] = n
more_digits n (c ∷ cs) =
    let rest = more_digits (n * 10 + (c - 48)) cs in if is_digit c then rest else n

abbrev pub read_digits : List ℕ → Option ℕ
read_digits [] = none
read_digits (c ∷ cs) = if is_digit c then some (more_digits 0 (c ∷ cs)) else none

abbrev pub length_at : List ℕ → Option ℕ
length_at cs = elim (strip_any_case (codes "content-length:") cs) [
  | none ↦ none
  | some rest ↦ read_digits (skip_spaces rest)
]

-- `header.match(/Content-Length:\s*(\d+)/i)`
abbrev pub content_length : List ℕ → Option ℕ
content_length [] = none
content_length (c ∷ cs) = or_else (length_at (c ∷ cs)) (content_length cs)

-- What the first bytes of the buffer are: not yet a message, a header without a length, or a
-- content.
pub data Frame : Type 0 where
  waiting : Frame
  bad_header : (header rest : List ℕ) → Frame
  payload : (content rest : List ℕ) → Frame

abbrev pub content_of : Option ℕ → List ℕ → List ℕ → Frame
content_of none header after = bad_header header after
content_of (some n) header after =
    if ltb (length after) n then waiting else payload (take n after) (drop n after)

abbrev pub frame_of : (List ℕ → List ℕ) → Option (List ℕ × List ℕ) → Frame
frame_of text none = waiting
frame_of text (some (header, after)) = content_of (content_length (text header)) header after

unfoldable pub frame : (List ℕ → List ℕ) → List ℕ → Frame
frame text buffer = frame_of text (split_header buffer)

-- The decimal digits of a number, on fuel.
abbrev pub digits_on : ℕ → ℕ → List ℕ
digits_on zero n = []
digits_on (suc fuel) n =
    let rest = digits_on fuel (n / 10) in
    if ltb n 10 then (48 + n) ∷ [] else rest ++ (48 + n % 10) ∷ []

abbrev pub decimal : ℕ → List ℕ
decimal n = digits_on (suc n) n

abbrev pub header_of : ℕ → List ℕ
header_of n = codes "Content-Length: " ++ decimal n

-- The bytes that `#send` writes for the bytes of a JSON text.
unfoldable pub framed : List ℕ → List ℕ
framed json = header_of (length json) ++ separator ++ json
