-- ===== src/Prelude/Text.antt =====
-- The methods of Python's `str` that the program uses, on the native text by its characters.
use Prim.Native.Char.{Char, code}
use Prim.Native.String.{String}
use Prim.Native.Nat.{ℕ, suc}
use mathlib.Core.Path.{◌≡◌, refl}
use mathlib.Core.Bool.{Bool, true, false, ◌&&◌, ◌||◌}
use mathlib.Core.List.{List, [], ◌∷◌}
use testudo.Prelude.Tests.{◌==◌, Comparable-nat, leb, if◌then◌else◌}

-- `str.isspace` of one character, by its code point.
unfoldable pub is_space : ℕ → Bool
is_space c =
    leb 9 c && leb c 13
    || leb 28 c && leb c 32
    || c == 133
    || c == 160
    || c == 5760
    || leb 8192 c && leb c 8202
    || c == 8232
    || c == 8233
    || c == 8239
    || c == 8287
    || c == 12288

-- s + t
abbrev pub append : String → String → String
append String.[] t = t
append (String.◌∷◌ c s) t = String.◌∷◌ c (append s t)

-- c in s, by the code of a character
abbrev pub has_char : ℕ → String → Bool
has_char k String.[] = false
has_char k (String.◌∷◌ c s) = code c == k || has_char k s

abbrev is_empty : String → Bool
is_empty String.[] = true
is_empty (String.◌∷◌ c s) = false

unfoldable pub lstrip : String → String
unfolding is_space
lstrip String.[] = ""
lstrip (String.◌∷◌ c s) = let rest = lstrip s in if is_space (code c) then rest else String.◌∷◌ c s

unfoldable pub rstrip : String → String
unfolding is_space
rstrip String.[] = ""
rstrip (String.◌∷◌ c s) =
    let rest = rstrip s in if is_empty rest && is_space (code c) then "" else String.◌∷◌ c rest

-- s.strip()
unfoldable pub strip : String → String
strip s = lstrip (rstrip s)

-- s.startswith("${")
unfoldable pub starts_open : String → Bool
starts_open (String.◌∷◌ c (String.◌∷◌ d s)) = code c == b'$' && code d == b'{'
starts_open (String.◌∷◌ c String.[]) = false
starts_open String.[] = false

-- s.endswith("}")
unfoldable pub ends_close : String → Bool
ends_close String.[] = false
ends_close (String.◌∷◌ c String.[]) = code c == b'}'
ends_close (String.◌∷◌ c (String.◌∷◌ d s)) = ends_close (String.◌∷◌ d s)

-- s.count("${"): two occurrences cannot overlap.
unfoldable pub count_open : String → ℕ
unfolding starts_open
count_open String.[] = 0
count_open (String.◌∷◌ c s) =
    let rest = count_open s in if starts_open (String.◌∷◌ c s) then suc rest else rest

abbrev drop_last : String → String
drop_last String.[] = ""
drop_last (String.◌∷◌ c String.[]) = ""
drop_last (String.◌∷◌ c (String.◌∷◌ d s)) = String.◌∷◌ c (drop_last (String.◌∷◌ d s))

abbrev drop_one : String → String
drop_one String.[] = ""
drop_one (String.◌∷◌ c s) = s

-- s[2:-1]
abbrev pub inner : String → String
inner s = drop_one (drop_one (drop_last s))

abbrev push : Char → List String → List String
push c [] = String.◌∷◌ c "" ∷ []
push c (part ∷ parts) = String.◌∷◌ c part ∷ parts

-- s.split(".")
unfoldable pub split_dot : String → List String
split_dot String.[] = "" ∷ []
split_dot (String.◌∷◌ c s) =
    let rest = split_dot s in if code c == b'.' then "" ∷ rest else push c rest

split_example : split_dot "steps.load.x" ≡ "steps" ∷ "load" ∷ "x" ∷ []
unfolding split_dot
split_example = refl

strip_example : strip "  a b " ≡ "a b"
unfolding strip lstrip rstrip
strip_example = refl

inner_example : inner "${inputs.x}" ≡ "inputs.x"
inner_example = refl

-- s.startswith(prefix)
unfoldable pub starts_with : String → String → Bool
starts_with s String.[] = true
starts_with String.[] (String.◌∷◌ d prefix) = false
starts_with (String.◌∷◌ c s) (String.◌∷◌ d prefix) = code c == code d && starts_with s prefix

starts_with_example : starts_with "agent/fix" "agent/" ≡ true
unfolding starts_with
starts_with_example = refl
