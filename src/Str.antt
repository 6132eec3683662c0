-- ===== src/Str.antt =====
-- Rust's `str` as the source uses it: a text is the list of its chars (code points), and `len`
-- counts the bytes of its UTF-8 form. Each function has the name of the method that it stands for.
pub mod Laws
pub mod Trim
pub mod Suffix
pub mod Contains
use Prim.Native.Char.{code}
use Prim.Native.String.{String}
use crabforge.Prelude.{
  ℕ, ◌+◌, Bool, true, false, ◌&&◌, ◌||◌, List, [], ◌∷◌, ◌++◌, map, Option, none, some, leb, ltb,
  ◌==◌, if◌then◌else◌, is_empty,
}

abbrev pub Text : Type 0
Text = List ℕ

-- The chars of a literal.
abbrev pub codes : String → Text
codes String.[] = []
codes (String.◌∷◌ c s) = code c ∷ codes s

-- `char::len_utf8`
abbrev pub len_utf8 : ℕ → ℕ
len_utf8 c = if ltb c 0x80 then 1 else if ltb c 0x800 then 2 else if ltb c 0x10000 then 3 else 4

-- `str::len`
unfoldable pub len : Text → ℕ
len [] = 0
len (c ∷ s) = len_utf8 c + len s

-- `==` on texts
unfoldable pub text_eq : Text → Text → Bool
text_eq [] [] = true
text_eq [] (_ ∷ _) = false
text_eq (_ ∷ _) [] = false
text_eq (c ∷ s) (d ∷ t) = c == d && text_eq s t

-- `s.strip_prefix(p)`, the prefix first
unfoldable pub strip_prefix : Text → Text → Option Text
strip_prefix [] s = some s
strip_prefix (p ∷ ps) [] = none
strip_prefix (p ∷ ps) (c ∷ s) = if p == c then strip_prefix ps s else none

abbrev pub is_some : Option Text → Bool
is_some none = false
is_some (some _) = true

-- `s.starts_with(p)`, the prefix first
unfoldable pub starts_with : Text → Text → Bool
unfolding strip_prefix
starts_with p s = is_some (strip_prefix p s)

abbrev cons_option : ℕ → Option Text → Option Text
cons_option c none = none
cons_option c (some s) = some (c ∷ s)

-- `s.strip_suffix(p)`, the suffix first
unfoldable pub strip_suffix : Text → Text → Option Text
unfolding text_eq
strip_suffix p [] = if text_eq p [] then some [] else none
strip_suffix p (c ∷ s) =
    let rest = cons_option c (strip_suffix p s) in if text_eq p (c ∷ s) then some [] else rest

-- `s.ends_with(p)`, the suffix first
unfoldable pub ends_with : Text → Text → Bool
unfolding strip_suffix
ends_with p s = is_some (strip_suffix p s)

-- `s.contains(p)`, the pattern first
unfoldable pub contains : Text → Text → Bool
unfolding starts_with
contains p [] = starts_with p []
contains p (c ∷ s) = starts_with p (c ∷ s) || contains p s

abbrev pub is_ascii_upper : ℕ → Bool
is_ascii_upper c = leb b'A' c && leb c b'Z'

abbrev pub is_ascii_alphanumeric : ℕ → Bool
is_ascii_alphanumeric c =
    (leb b'0' c && leb c b'9') || (is_ascii_upper c || (leb b'a' c && leb c b'z'))

abbrev pub is_ascii_control : ℕ → Bool
is_ascii_control c = ltb c 32 || c == 127

unfoldable pub lower_char : ℕ → ℕ
lower_char c = if is_ascii_upper c then c + 32 else c

-- `str::to_ascii_lowercase`
unfoldable pub to_ascii_lowercase : Text → Text
unfolding lower_char
to_ascii_lowercase s = map lower_char s

-- `char::is_whitespace`: the code points with Unicode's White_Space property
abbrev pub is_whitespace : ℕ → Bool
is_whitespace c =
    (leb 0x09 c && leb c 0x0d)
    || (c == 0x20
        || (c == 0x85
            || (c == 0xa0
                || (c == 0x1680
                    || ((leb 0x2000 c && leb c 0x200a)
                        || (c == 0x2028
                            || (c == 0x2029 || (c == 0x202f || (c == 0x205f || c == 0x3000)))))))))

unfoldable pub trim_start : Text → Text
trim_start [] = []
trim_start (c ∷ s) = let rest = trim_start s in if is_whitespace c then rest else c ∷ s

unfoldable pub trim_end : Text → Text
trim_end [] = []
trim_end (c ∷ s) =
    let rest = trim_end s in if is_empty rest && is_whitespace c then [] else c ∷ rest

-- `str::trim`
unfoldable pub trim : Text → Text
unfolding trim_start trim_end
trim s = trim_end (trim_start s)
