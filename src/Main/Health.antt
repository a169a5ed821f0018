-- ===== src/Main/Health.antt =====
-- src/main.rs: `healthcheck`. What the socket does is a parameter: whether it connects, whether the
-- request is written, and what each read gives, where no bytes stand for the end, an error or the timeout.
use proxpulse_judge.Base.{
  ℕ, zero, suc, ◌+◌, ◌&&◌, ◌||◌, Bool, false, not, Option, none, some, List, [], ◌∷◌, ◌++◌,
  if◌then◌else◌, leb, ◌==◌, length, take, is_empty, get_elem?, retain, option_eq, unwrap_or, Text,
  Bytes, codes,
}
use proxpulse_judge.Str.Basic.{split, is_whitespace, split_once}

abbrev pub buf_size : ℕ
buf_size = 256

abbrev pub max_response : ℕ
max_response = 1024

pub record Probe : Type 0 where
  pub connects : Bool
  pub writes : Bool
  pub read : ℕ → Option Bytes

-- `resp.windows(2).any(|w| w == b"\r\n")`
unfoldable pub has_crlf : Bytes → Bool
has_crlf [] = false
has_crlf (c ∷ []) = false
has_crlf (c ∷ d ∷ s) = (c == 13 && d == 10) || has_crlf (d ∷ s)

-- One read fills the buffer at most.
unfoldable pub read_buf : Option Bytes → Bytes
read_buf r = take buf_size (unwrap_or r [])

-- The loop from its `i`-th read on; it has no result where the fuel does not suffice.
unfoldable pub read_loop : (ℕ → Option Bytes) → ℕ → ℕ → Bytes → Option Bytes
unfolding has_crlf read_buf
read_loop read zero i resp = none
read_loop read (suc fuel) i resp =
    let got = read_buf (read i) in
    let rest = read_loop read fuel (i + 1) (resp ++ got) in
    if leb max_response (length resp)
    then some resp
    else if is_empty got
    then some resp
    else if has_crlf (resp ++ got)
    then some (resp ++ got)
    else rest

-- `lines().next()`: up to the line feed, without a carriage return before it.
unfoldable pub drop_cr : Text → Text
drop_cr [] = []
drop_cr (c ∷ []) = if c == 13 then [] else c ∷ []
drop_cr (c ∷ d ∷ s) = c ∷ drop_cr (d ∷ s)

unfoldable pub line_of : Text → Option (Text × Text) → Text
unfolding drop_cr
line_of s none = s
line_of s (some (line, rest)) = drop_cr line

unfoldable pub first_line : Text → Option Text
unfolding split_once line_of
first_line [] = none
first_line (c ∷ s) = some (line_of (c ∷ s) (split_once 10 (c ∷ s)))

-- `split_whitespace`
unfoldable pub words : Text → List Text
unfolding split is_whitespace
words s = retain (λ w. not (is_empty w)) (split is_whitespace s)

unfoldable pub second_word : Option Text → Option Text
unfolding words
second_word none = none
second_word (some line) = get_elem? (words line) 1

unfoldable pub is_healthy : Text → Bool
unfolding first_line second_word
is_healthy text = option_eq (second_word (first_line text)) (some (codes "200"))

-- Each read before the last one brings a byte or more: 1025 rounds are enough.
abbrev pub enough_reads : ℕ
enough_reads = 1025

unfoldable pub healthy_of : (Bytes → Text) → Bool → Bool → Option Bytes → Bool
unfolding is_healthy
healthy_of lossy connects writes resp =
    if not connects
    then false
    else if not writes
    then false
    else is_healthy (lossy (unwrap_or resp []))

unfoldable pub healthcheck : (Bytes → Text) → Probe → Bool
unfolding read_loop healthy_of
healthcheck lossy p = healthy_of lossy p.connects p.writes (read_loop p.read enough_reads 0 [])
