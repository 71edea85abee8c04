-- ===== src/Base/Text.antt =====
-- Python's operations on texts, as lists of characters.
use Prim.Native.Char.{Char, code}
use Prim.Native.String.{String, [] as []ₛ, ◌∷◌ as ◌∷ₛ◌}
use mathlib.Core.Bool.{Bool, true, false, ◌&&◌}
use mathlib.Core.List.{List, [], ◌∷◌, ◌++◌}
use text.Mathlib.TextBridge.{of_list}
use kai_daemon.Base.Tests.{if◌then◌else◌, nat_eq}
use kai_daemon.Base.Lists.{drop, length}

-- What Unicode says of a character: whether it is white space, and its upper and lower case, which
-- may be more than one character.
pub record Unicode : Type 0 where
  pub is_space : Char → Bool
  pub upper : Char → List Char
  pub lower : Char → List Char

unfoldable pub chars : String → List Char
chars []ₛ = []
chars (c ∷ₛ s) = c ∷ chars s

abbrev pub joined : List Char → String
joined = of_list

abbrev pub same_char : Char → Char → Bool
same_char c d = nat_eq (code c) (code d)

-- `s.lstrip(...)` of the characters that a test tells
unfoldable pub strip_left : (Char → Bool) → List Char → List Char
strip_left p [] = []
strip_left p (c ∷ s) = let rest = strip_left p s in if p c then rest else c ∷ s

unfoldable pub strip_right : (Char → Bool) → List Char → List Char
strip_right p [] = []
strip_right p (c ∷ s) = elim (strip_right p s) [
  | [] ↦ if p c then [] else c ∷ []
  | d ∷ rest ↦ c ∷ d ∷ rest
]

-- `s.strip(...)`
unfoldable pub strip : (Char → Bool) → List Char → List Char
unfolding strip_left strip_right
strip p s = strip_left p (strip_right p s)

-- `s.upper()`
unfoldable pub to_upper : Unicode → List Char → List Char
to_upper u [] = []
to_upper u (c ∷ s) = u.upper c ++ to_upper u s

-- `s.lower()`
unfoldable pub to_lower : Unicode → List Char → List Char
to_lower u [] = []
to_lower u (c ∷ s) = u.lower c ++ to_lower u s

-- `s.startswith(t)`
unfoldable pub starts_with : List Char → List Char → Bool
starts_with s [] = true
starts_with [] (d ∷ t) = false
starts_with (c ∷ s) (d ∷ t) = same_char c d && starts_with s t

-- `s == t`
unfoldable pub same_text : List Char → List Char → Bool
same_text [] [] = true
same_text [] (d ∷ t) = false
same_text (c ∷ s) [] = false
same_text (c ∷ s) (d ∷ t) = same_char c d && same_text s t

unfoldable pub take_token : (Char → Bool) → List Char → List Char
take_token p [] = []
take_token p (c ∷ s) = let rest = take_token p s in if p c then [] else c ∷ rest

-- `s.split()[0]`, and the empty text where there is no token
unfoldable pub first_token : (Char → Bool) → List Char → List Char
unfolding strip_left take_token
first_token p s = take_token p (strip_left p s)

-- `s[len(t):]`
unfoldable pub after : String → List Char → List Char
unfolding chars
after t s = drop (length (chars t)) s

-- `s or t`
abbrev pub text_or : List Char → String → String
text_or [] t = t
text_or (c ∷ s) t = joined (c ∷ s)
