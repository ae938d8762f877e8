-- ===== src/Text.antt =====
-- What the source uses of Python's text and byte methods, on lists of code points.
use openipc_defib.Prelude.{
  ℕ, zero, suc, ◌+◌, ◌-◌, ◌*◌, ◌/◌, ◌%◌, List, [], ◌∷◌, ◌++◌, Bool, true, false, ◌&&◌, ◌||◌, ltb,
  leb, ◌==◌, if◌then◌else◌, Option, none, some, map,
}

-- `bytes.decode("ascii")`, which raises past 127, and with `errors="replace"`.
unfoldable pub is_ascii : List ℕ → Bool
is_ascii [] = true
is_ascii (b ∷ bs) = ltb b 128 && is_ascii bs

abbrev pub decode_replace : List ℕ → List ℕ
decode_replace bytes = map (λ b. if ltb b 128 then b else 0xfffd) bytes

abbrev pub lower_code : ℕ → ℕ
lower_code c = if leb 65 c && leb c 90 then c + 32 else c

-- `str.lower` of a text whose letters are ASCII.
abbrev pub lower : List ℕ → List ℕ
lower cs = map lower_code cs

-- `text.split(sep)` of one character: at least one part.
unfoldable pub split_from : ℕ → List ℕ → List ℕ → List (List ℕ)
split_from sep part [] = part ∷ []
split_from sep part (c ∷ cs) = elim (c == sep) [
  | true ↦ part ∷ split_from sep [] cs
  | false ↦ split_from sep (part ++ c ∷ []) cs
]

abbrev pub split : ℕ → List ℕ → List (List ℕ)
split sep cs = split_from sep [] cs

abbrev pub last_of : List ℕ → List (List ℕ) → List ℕ
last_of part [] = part
last_of part (p ∷ ps) = last_of p ps

-- `posixpath.basename`: what follows the last slash.
abbrev pub basename : List ℕ → List ℕ
basename path = last_of [] (split b'/' path)

abbrev pub is_space : ℕ → Bool
is_space c = c == 32 || ((leb 9 c && leb c 13) || (leb 28 c && leb c 31))

abbrev pub is_digit : ℕ → Bool
is_digit c = leb b'0' c && leb c b'9'

unfoldable pub lstrip : List ℕ → List ℕ
lstrip [] = []
lstrip (c ∷ cs) = if is_space c then lstrip cs else c ∷ cs

unfoldable pub all_space : List ℕ → Bool
all_space [] = true
all_space (c ∷ cs) = is_space c && all_space cs

unfoldable pub rstrip : List ℕ → List ℕ
rstrip [] = []
rstrip (c ∷ cs) = if all_space (c ∷ cs) then [] else c ∷ rstrip cs

abbrev pub strip : List ℕ → List ℕ
strip cs = rstrip (lstrip cs)

-- The digits of `int(text)` behind the first: single underscores may stand between digits.
unfoldable pub int_digits : ℕ → List ℕ → Option ℕ
int_digits acc [] = some acc
int_digits acc (c ∷ []) = if is_digit c then some (acc * 10 + (c - b'0')) else none
int_digits acc (c ∷ d ∷ cs) = elim (is_digit c) [
  | true ↦ int_digits (acc * 10 + (c - b'0')) (d ∷ cs)
  | false ↦ if c == b'_' && is_digit d then int_digits (acc * 10 + (d - b'0')) cs else none
]

unfoldable pub int_magnitude : List ℕ → Option ℕ
int_magnitude [] = none
int_magnitude (c ∷ cs) = if is_digit c then int_digits (c - b'0') cs else none

-- `max(0, int(text))`, for callers that clamp; `none` where `int` raises a ValueError.
abbrev pub int_sign : List ℕ → Option ℕ
int_sign [] = none
int_sign (c ∷ cs) =
    if c == b'-'
    then (elim (int_magnitude cs) [ some v ↦ some 0 | none ↦ none ])
    else if c == b'+'
    then int_magnitude cs
    else int_magnitude (c ∷ cs)

abbrev pub int_or_zero : List ℕ → Option ℕ
int_or_zero text = int_sign (strip text)

-- `str(n)`, with fuel for the digits.
unfoldable pub decimal_from : ℕ → ℕ → List ℕ → List ℕ
decimal_from zero n rest = rest
decimal_from (suc fuel) n rest =
    let more = decimal_from fuel (n / 10) ((b'0' + n % 10) ∷ rest) in
    if ltb n 10 then (b'0' + n) ∷ rest else more

abbrev pub decimal : ℕ → List ℕ
decimal n = decimal_from (suc n) n []
