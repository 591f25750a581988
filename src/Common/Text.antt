-- ===== src/Common/Text.antt =====
-- Texts as lists of code points, which for the latin-1 texts of the source are their bytes.
use Prim.Native.Nat.{ℕ, ◌-◌}
use Prim.Native.Char.{code}
use Prim.Native.String.{String}
use mathlib.Core.Bool.{Bool, true, false, ◌&&◌, ◌||◌}
use mathlib.Core.List.{[], ◌∷◌}
use commercial_rchproxy.Common.Tests.{leb, ◌==◌, if◌then◌else◌}
use commercial_rchproxy.Common.Lists.{Bytes}

-- The code points of a literal; these are its bytes if the text is ASCII.
abbrev pub codes : String → Bytes
codes String.[] = []
codes (String.◌∷◌ c s) = code c ∷ codes s

-- `==` on texts
unfoldable pub text_eq : Bytes → Bytes → Bool
text_eq [] [] = true
text_eq [] (d ∷ ds) = false
text_eq (c ∷ cs) [] = false
text_eq (c ∷ cs) (d ∷ ds) = c == d && text_eq cs ds

-- `text.startswith(prefix)`, the prefix first
unfoldable pub starts_with : Bytes → Bytes → Bool
starts_with [] cs = true
starts_with (d ∷ ds) [] = false
starts_with (d ∷ ds) (c ∷ cs) = d == c && starts_with ds cs

-- `\d`: among the latin-1 characters only the ASCII digits are decimal
abbrev pub is_digit : ℕ → Bool
is_digit c = leb b'0' c && leb c b'9'

-- `\s` and what `str.strip` removes, among the latin-1 characters
abbrev pub is_space : ℕ → Bool
is_space c = leb 9 c && leb c 13 || leb 28 c && leb c 32 || c == 0x85 || c == 0xa0

-- `.`
abbrev pub is_dot : ℕ → Bool
is_dot c = if c == 10 then false else true

-- `\w`, among the latin-1 characters
abbrev pub is_word : ℕ → Bool
is_word c =
    is_digit c
    || leb b'A' c && leb c b'Z'
    || leb b'a' c && leb c b'z'
    || c == b'_'
    || c == 0xaa
    || c == 0xb2
    || c == 0xb3
    || c == 0xb5
    || c == 0xb9
    || c == 0xba
    || leb 0xbc c && leb c 0xbe
    || leb 0xc0 c && leb c 0xd6
    || leb 0xd8 c && leb c 0xf6
    || leb 0xf8 c && leb c 0xff

unfoldable pub strip_left : Bytes → Bytes
strip_left [] = []
strip_left (c ∷ cs) = if is_space c then strip_left cs else c ∷ cs

unfoldable pub all_space : Bytes → Bool
all_space [] = true
all_space (c ∷ cs) = is_space c && all_space cs

unfoldable pub strip_right : Bytes → Bytes
unfolding all_space
strip_right [] = []
strip_right (c ∷ cs) = if all_space (c ∷ cs) then [] else c ∷ strip_right cs

-- `text.strip()`
unfoldable pub strip : Bytes → Bytes
unfolding strip_left strip_right
strip cs = strip_right (strip_left cs)

-- `text.upper()` of the ASCII letters: the others give no text that holds a word in capitals of the
-- source, since `ß` gives `SS` and the rest give no ASCII letter.
unfoldable pub upper : Bytes → Bytes
upper [] = []
upper (c ∷ cs) = (if leb b'a' c && leb c b'z' then c - 32 else c) ∷ upper cs

-- `word in text`
unfoldable pub contains_text : Bytes → Bytes → Bool
unfolding starts_with
contains_text word [] = starts_with word []
contains_text word (c ∷ cs) = starts_with word (c ∷ cs) || contains_text word cs

-- `text.split(maxsplit=1)[0]`, of a text that starts with no space
unfoldable pub first_word : Bytes → Bytes
first_word [] = []
first_word (c ∷ cs) = if is_space c then [] else c ∷ first_word cs
