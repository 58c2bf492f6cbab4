-- ===== src/Base/Bytes.antt =====
-- C strings as the lists of their bytes before the NUL, and the C library's functions on them that
-- the sources use: a pointer into a string is what is left of it there.
use Prim.Native.Char.{code}
use Prim.Native.String.{String}
use sipp.Base.Tests.{ltb, leb, ◌==◌, if◌then◌else◌}
use sipp.Base.Lists.{get_or}
use sipp.Base.Int.{ℤ, pos, negsuc}
use Prim.Native.Nat.{ℕ, ◌+◌, ◌-◌, ◌*◌, ◌^◌}
use mathlib.Core.Bool.{Bool, true, false, ◌&&◌, ◌||◌}
use mathlib.Core.List.{List, [], ◌∷◌}
use mathlib.Core.Path.{◌≡◌}
use mathlib.Core.Logic.{◌↔◌}
use native.Mathlib.Omega.{arith}
use mathlib.Core.Option.{Option, none, some}

abbrev pub codes : String → List ℕ
codes String.[] = []
codes (String.◌∷◌ c s) = code c ∷ codes s

-- `p[i]`, with the NUL at the end.
abbrev pub at : List ℕ → ℕ → ℕ
at xs i = get_or xs i 0

-- `isspace`, `isdigit`, `isalnum`, `isxdigit` and `tolower` in the C locale.
abbrev pub is_space : ℕ → Bool
is_space c = c == b' ' || leb 9 c && leb c 13

abbrev pub is_digit : ℕ → Bool
is_digit c = leb b'0' c && leb c b'9'

abbrev pub is_alnum : ℕ → Bool
is_alnum c = is_digit c || leb b'a' c && leb c b'z' || leb b'A' c && leb c b'Z'

abbrev pub is_xdigit : ℕ → Bool
is_xdigit c = is_digit c || leb b'a' c && leb c b'f' || leb b'A' c && leb c b'F'

abbrev pub to_lower : ℕ → ℕ
to_lower c = if leb b'A' c && leb c b'Z' then c + 32 else c

-- A space or a tab.
abbrev pub is_blank : ℕ → Bool
is_blank c = c == b' ' || c == b'\t'

abbrev pub bytes_eq : List ℕ → List ℕ → Bool
bytes_eq [] [] = true
bytes_eq (x ∷ xs) (y ∷ ys) = x == y && bytes_eq xs ys
bytes_eq _ _ = false

pub bytes_eq_iff : (a b : List ℕ) → (bytes_eq a b ≡ true) ↔ (a ≡ b)
bytes_eq_iff (x ∷ a) (y ∷ b) = ground (arith, bytes_eq_iff a b)
bytes_eq_iff _ _ = ground arith

-- `!strncasecmp(p, name, strlen(name))`
abbrev pub starts_icase : List ℕ → List ℕ → Bool
starts_icase [] p = true
starts_icase (n ∷ ns) [] = false
starts_icase (n ∷ ns) (c ∷ p) = to_lower n == to_lower c && starts_icase ns p

-- `!strncmp(p, s, strlen(s))`
abbrev pub starts : List ℕ → List ℕ → Bool
starts [] p = true
starts (n ∷ ns) [] = false
starts (n ∷ ns) (c ∷ p) = n == c && starts ns p

-- `strstr(p, s)`
abbrev pub strstr : List ℕ → List ℕ → Option (List ℕ)
strstr s [] = if starts s [] then some [] else none
strstr s (c ∷ p) = if starts s (c ∷ p) then some (c ∷ p) else strstr s p

-- `strchr(p, c)`, for another byte than NUL
abbrev pub strchr : ℕ → List ℕ → Option (List ℕ)
strchr c [] = none
strchr c (x ∷ p) = if x == c then some (x ∷ p) else strchr c p

abbrev pub has_byte : ℕ → List ℕ → Bool
has_byte c [] = false
has_byte c (x ∷ p) = x == c || has_byte c p

-- The first `strcspn(p, set)` bytes.
abbrev pub span_not : List ℕ → List ℕ → List ℕ
span_not set [] = []
span_not set (x ∷ p) = if has_byte x set then [] else x ∷ span_not set p

-- `while (test(*p)) p++`
abbrev pub skip_while : (ℕ → Bool) → List ℕ → List ℕ
skip_while test [] = []
skip_while test (x ∷ p) = if test x then skip_while test p else x ∷ p

-- The value of the decimal digits at the start, after those of value `acc`.
abbrev pub digits_value : ℕ → List ℕ → ℕ
digits_value acc [] = acc
digits_value acc (x ∷ p) = if is_digit x then digits_value (acc * 10 + (x - b'0')) p else acc

abbrev pub long_max : ℕ
long_max = 2 ^ 63 - 1

abbrev pub ulong_mod : ℕ
ulong_mod = 2 ^ 64

-- A magnitude of either sign, held in a `long`.
abbrev pub clamp_long : Bool → ℕ → ℤ
clamp_long true n =
    if ltb (long_max + 1) n then negsuc long_max else if n == 0 then pos 0 else negsuc (n - 1)
clamp_long false n = if ltb long_max n then pos long_max else pos n

abbrev pub strtol_signed : List ℕ → ℤ
strtol_signed [] = pos 0
strtol_signed (c ∷ p) =
    if c == b'-'
    then clamp_long true (digits_value 0 p)
    else if c == b'+'
    then clamp_long false (digits_value 0 p)
    else clamp_long false (digits_value 0 (c ∷ p))

-- `strtol(p, nullptr, 10)`, which `atol(p)` is too
abbrev pub strtol : List ℕ → ℤ
strtol p = strtol_signed (skip_while is_space p)

-- The conversion of a `long` to `unsigned long`
abbrev pub to_ulong : ℤ → ℕ
to_ulong (pos n) = n
to_ulong (negsuc n) = ulong_mod - (n + 1)

abbrev pub clamp_ulong : ℕ → ℕ
clamp_ulong n = if ltb (ulong_mod - 1) n then ulong_mod - 1 else n

abbrev pub strtoul_signed : List ℕ → ℕ
strtoul_signed [] = 0
strtoul_signed (c ∷ p) =
    if c == b'-'
    then (if ltb (ulong_mod - 1) (digits_value 0 p)
        then ulong_mod - 1
        else if digits_value 0 p == 0
        then 0
        else ulong_mod - digits_value 0 p)
    else if c == b'+'
    then clamp_ulong (digits_value 0 p)
    else clamp_ulong (digits_value 0 (c ∷ p))

-- `strtoul(p, nullptr, 10)`
abbrev pub strtoul : List ℕ → ℕ
strtoul p = strtoul_signed (skip_while is_space p)
