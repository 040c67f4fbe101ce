-- ===== src/Base/Text.antt =====
-- Bytes and text. A byte is a number below 256. A Rust `String` that the program walks is the list
-- of its Unicode scalar values; `from_utf8_lossy`, `from_utf8` and `trim` are the standard
-- library's, as functions of the bytes.
pub mod Equal
use Prim.Native.Char.{code}
use Prim.Native.Nat.{ℕ, zero, suc, ◌+◌, ◌-◌, ◌*◌, ◌/◌, ◌%◌, min}
use Prim.Native.String.{String}
use mathlib.Core.Bool.{Bool, true, false, ◌&&◌, ◌||◌}
use mathlib.Core.List.{List, [], ◌∷◌, ◌++◌, reverse}
use mathlib.Core.Option.{Option, none, some}
use mathlib.Core.Option
use seestar_proxy.Base.Tests.{ltb, leb, ◌==◌, if◌then◌else◌}

abbrev pub Bytes : Type 0
Bytes = List ℕ

abbrev pub Text : Type 0
Text = List ℕ

-- The scalar values of a literal.
abbrev pub codes : String → Text
codes String.[] = []
codes (String.◌∷◌ c s) = code c ∷ codes s

unfoldable pub text_eq : Text → Text → Bool
text_eq [] [] = true
text_eq (a ∷ s) (b ∷ t) = a == b && text_eq s t
text_eq _ _ = false

-- The decoder between two bytes: between characters, or `left` continuation bytes short of one,
-- the next of which must lie in `lo ..= hi`.
pub data Decoder : Type 0 where
  start : Decoder
  middle : (left lo hi acc : ℕ) → Decoder

abbrev pub in_range : ℕ → ℕ → ℕ → Bool
in_range lo hi b = leb lo b && leb b hi

-- The first byte of a character: what it emits, if it is a character or an error by itself.
unfoldable pub first_byte : ℕ → Option ℕ × Decoder × Bool
first_byte b =
    if ltb b 0x80
    then (some b, start, true)
    else if in_range 0xc2 0xdf b
    then (none, middle 1 0x80 0xbf (b - 0xc0), true)
    else if b == 0xe0
    then (none, middle 2 0xa0 0xbf 0, true)
    else if b == 0xed
    then (none, middle 2 0x80 0x9f 0xd, true)
    else if in_range 0xe1 0xef b
    then (none, middle 2 0x80 0xbf (b - 0xe0), true)
    else if b == 0xf0
    then (none, middle 3 0x90 0xbf 0, true)
    else if in_range 0xf1 0xf3 b
    then (none, middle 3 0x80 0xbf (b - 0xf0), true)
    else if b == 0xf4
    then (none, middle 3 0x80 0x8f 4, true)
    else (some 0xfffd, start, false)

abbrev pub cons_opt : Option ℕ → Text → Text
cons_opt none t = t
cons_opt (some c) t = c ∷ t

-- The characters that a byte completes, the decoder after it, and whether the input is still valid.
unfoldable pub decode_byte : Decoder → ℕ → Text × Decoder × Bool
unfolding first_byte
decode_byte start b = let (c, d, valid) = first_byte b in (cons_opt c [], d, valid)
decode_byte (middle left lo hi acc) b =
    let (c, d, valid) = first_byte b in
    let acc' = acc * 64 + (b - 0x80) in
    if in_range lo hi b
    then (if left == 1
        then (acc' ∷ [], start, true)
        else ([], middle (left - 1) 0x80 0xbf acc', true))
    else (0xfffd ∷ cons_opt c [], d, false)

unfoldable pub lossy_from : Decoder → Bytes → Text
unfolding decode_byte
lossy_from start [] = []
lossy_from (middle _ _ _ _) [] = 0xfffd ∷ []
lossy_from d (b ∷ bs) = let (cs, d', valid) = decode_byte d b in cs ++ lossy_from d' bs

-- `String::from_utf8_lossy`: each maximal invalid sequence becomes U+FFFD.
unfoldable pub from_utf8_lossy : Bytes → Text
unfolding lossy_from
from_utf8_lossy bs = lossy_from start bs

unfoldable pub strict_from : Decoder → Bytes → Option Text
unfolding decode_byte
strict_from start [] = some []
strict_from (middle _ _ _ _) [] = none
strict_from d (b ∷ bs) =
    let (cs, d', valid) = decode_byte d b in
    let rest = strict_from d' bs in if valid then Option.map (◌++◌ cs) rest else none

-- `str::from_utf8`.
unfoldable pub from_utf8 : Bytes → Option Text
unfolding strict_from
from_utf8 bs = strict_from start bs

-- `char::is_whitespace`.
unfoldable pub is_whitespace : ℕ → Bool
is_whitespace c =
    in_range 9 13 c
    || c == 32
    || c == 0x85
    || c == 0xa0
    || c == 0x1680
    || in_range 0x2000 0x200a c
    || c == 0x2028
    || c == 0x2029
    || c == 0x202f
    || c == 0x205f
    || c == 0x3000

unfoldable pub trim_start : Text → Text
unfolding is_whitespace
trim_start [] = []
trim_start (c ∷ s) = let rest = trim_start s in if is_whitespace c then rest else c ∷ s

-- `str::trim`.
unfoldable pub trim : Text → Text
unfolding trim_start
trim s = reverse (trim_start (reverse (trim_start s)))

-- The bytes that a character takes in UTF-8, and `str::len`.
abbrev pub utf8_width : ℕ → ℕ
utf8_width c = if ltb c 0x80 then 1 else if ltb c 0x800 then 2 else if ltb c 0x10000 then 3 else 4

unfoldable pub utf8_len : Text → ℕ
utf8_len [] = 0
utf8_len (c ∷ s) = utf8_width c + utf8_len s

-- `str::is_char_boundary`.
unfoldable pub is_char_boundary : ℕ → Text → Bool
is_char_boundary n [] = n == 0
is_char_boundary n (c ∷ s) =
    let rest = is_char_boundary (n - utf8_width c) s in n == 0 || (leb (utf8_width c) n && rest)

-- `&s[..s.len().min(n)]` panics unless it ends at a character boundary.
unfoldable pub can_slice : ℕ → Text → Bool
unfolding utf8_len is_char_boundary
can_slice n s = is_char_boundary (min n (utf8_len s)) s

unfoldable pub starts_with : Text → Text → Bool
starts_with [] s = true
starts_with (c ∷ p) [] = false
starts_with (c ∷ p) (d ∷ s) = c == d && starts_with p s

abbrev add_opt : ℕ → Option ℕ → Option ℕ
add_opt n none = none
add_opt n (some m) = some (n + m)

-- `str::find`, in bytes.
unfoldable pub find : Text → Text → Option ℕ
unfolding starts_with
find p [] = if starts_with p [] then some 0 else none
find p (c ∷ s) =
    let rest = add_opt (utf8_width c) (find p s) in if starts_with p (c ∷ s) then some 0 else rest

decimal_loop : ℕ → ℕ → Text → Text
decimal_loop zero n acc = acc
decimal_loop (suc fuel) n acc =
    let rest = decimal_loop fuel (n / 10) ((b'0' + n % 10) ∷ acc) in
    if ltb n 10 then (b'0' + n) ∷ acc else rest

-- `{}` of a `u64`, which has at most 20 digits.
unfoldable pub decimal : ℕ → Text
unfolding decimal_loop
decimal n = decimal_loop 20 n []
