-- ===== src/Base/Texts.antt =====
-- The functions of Go's packages strings and unicode that the program uses on texts.
use Prim.Native.Nat.{ℕ, ◌+◌, ◌-◌, suc}
use Prim.Native.Char.{code}
use Prim.Native.String.{String, len, find, slice}
use mathlib.Core.Bool.{Bool, true, false, ◌&&◌, ◌||◌}
use mathlib.Core.Option.{Option, none, some}
use text.Mathlib.Text.{starts_with, ◌==◌ as str_eq}
use minimax_proxy.Base.Tests.{if◌then◌else◌, leb, ltb, nat_beq}

-- `strings.Contains`.
unfoldable pub has_text : String → String → Bool
has_text s part = ltb (find s part) (suc (len s))

-- `strings.HasPrefix`.
unfoldable pub has_prefix : String → String → Bool
has_prefix s prefix = starts_with s prefix

-- `strings.Cut`: what stands before and behind the separator, where it occurs.
unfoldable pub cut : String → String → Option (String × String)
unfolding has_text
cut s separator =
    if has_text s separator
    then some (slice s 0 (find s separator), slice s (find s separator + len separator) (len s))
    else none

unfoldable pub trim_prefix : String → String → String
unfolding has_prefix
trim_prefix s prefix = if has_prefix s prefix then slice s (len prefix) (len s) else s

unfoldable pub trim_suffix : String → String → String
trim_suffix s suffix =
    let start = len s - len suffix in
    if leb (len suffix) (len s) && str_eq (slice s start (len s)) suffix then slice s 0 start else s

-- `unicode.IsSpace`.
unfoldable pub is_space : ℕ → Bool
is_space c =
    (leb 9 c && leb c 13)
    || (nat_beq c 32
        || (nat_beq c 0x85
            || (nat_beq c 0xA0
                || (nat_beq c 0x1680
                    || ((leb 0x2000 c && leb c 0x200A)
                        || (nat_beq c 0x2028
                            || (nat_beq c 0x2029
                                || (nat_beq c 0x202F
                                    || (nat_beq c 0x205F || nat_beq c 0x3000)))))))))

-- `unicode.IsControl`.
unfoldable pub is_control : ℕ → Bool
is_control c = ltb c 32 || (leb 0x7F c && ltb c 0xA0)

-- `strings.IndexFunc(s, p) < 0`.
unfoldable pub no_rune : (ℕ → Bool) → String → Bool
no_rune p String.[] = true
no_rune p (String.◌∷◌ c s) = let rest = no_rune p s in if p (code c) then false else rest

-- `strings.TrimSpace(s) == ""`.
unfoldable pub is_blank : String → Bool
is_blank String.[] = true
is_blank (String.◌∷◌ c s) = let rest = is_blank s in if is_space (code c) then rest else false

-- What `unicode.ToLower` makes of a character, as far as the result is an ASCII letter: beside the
-- capitals the dotted I and the Kelvin sign.
unfoldable pub to_lower : ℕ → ℕ
to_lower c =
    if leb b'A' c && leb c b'Z'
    then c + 32
    else if nat_beq c 0x130
    then b'i'
    else if nat_beq c 0x212A
    then b'k'
    else c

-- `strings.EqualFold` folds the Kelvin sign and the long s onto ASCII letters.
unfoldable pub fold : ℕ → ℕ
fold c =
    if leb b'A' c && leb c b'Z'
    then c + 32
    else if nat_beq c 0x17F
    then b's'
    else if nat_beq c 0x212A
    then b'k'
    else c

-- The text becomes the given ASCII text in lower case when each character goes through `f`.
unfoldable pub reads_as : (ℕ → ℕ) → String → String → Bool
reads_as f String.[] String.[] = true
reads_as f String.[] (String.◌∷◌ d t) = false
reads_as f (String.◌∷◌ c s) String.[] = false
reads_as f (String.◌∷◌ c s) (String.◌∷◌ d t) =
    let rest = reads_as f s t in if nat_beq (f (code c)) (code d) then rest else false
