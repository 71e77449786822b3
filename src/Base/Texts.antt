-- ===== src/Base/Texts.antt =====
-- Text as the list of its character codes. Case conversion is that of ASCII, which is what the
-- program's addresses, currency codes and status words are written in.
use Prim.Native.Nat.{ℕ, ◌+◌, ◌-◌}
use Prim.Native.Char.{code}
use Prim.Native.String.{String}
use mathlib.Core.Path.{◌≡◌, refl, ap, ◌∙◌}
use mathlib.Core.Logic.{◌↔◌}
use mathlib.Core.Bool.{Bool, true, false, ◌&&◌, ◌||◌}
use mathlib.Core.List.{List, [], ◌∷◌, map}
use native.Mathlib.Omega.{arith}
use tende.Base.Tests.{leb, ◌==◌, if◌then◌else◌}
use tende.Base.Lists.{length, drop, every, any}

abbrev pub Text : Type 0
Text = List ℕ

abbrev pub codes : String → Text
codes String.[] = []
codes (String.◌∷◌ c s) = code c ∷ codes s

unfoldable pub text_eq : Text → Text → Bool
text_eq [] [] = true
text_eq [] (b ∷ t) = false
text_eq (a ∷ s) [] = false
text_eq (a ∷ s) (b ∷ t) = a == b && text_eq s t

pub text_eq_iff : (s t : Text) → (text_eq s t ≡ true) ↔ (s ≡ t)
unfolding text_eq
text_eq_iff [] [] = (λ h. refl, λ h. refl)
text_eq_iff [] (b ∷ t) = (λ h. cc, λ h. cc)
text_eq_iff (a ∷ s) [] = (λ h. cc, λ h. cc)
text_eq_iff (a ∷ s) (b ∷ t) =
    (λ h. ground (arith, text_eq_iff s t), λ h. ground (arith, text_eq_iff s t))

pub text_eq_refl : (s : Text) → text_eq s s ≡ true
text_eq_refl s = (text_eq_iff s s).1 refl

abbrev is_upper : ℕ → Bool
is_upper c = leb b'A' c && leb c b'Z'

abbrev is_lower : ℕ → Bool
is_lower c = leb b'a' c && leb c b'z'

abbrev pub is_digit : ℕ → Bool
is_digit c = leb b'0' c && leb c b'9'

abbrev lower_char : ℕ → ℕ
lower_char c = if is_upper c then c + 32 else c

abbrev upper_char : ℕ → ℕ
upper_char c = if is_lower c then c - 32 else c

-- `toLowerCase` and `toUpperCase`
unfoldable pub to_lower : Text → Text
to_lower s = map lower_char s

unfoldable pub to_upper : Text → Text
to_upper s = map upper_char s

pub to_lower_idem : (s : Text) → to_lower (to_lower s) ≡ to_lower s
unfolding to_lower
to_lower_idem [] = refl
to_lower_idem (c ∷ s) = ground (arith, to_lower_idem s)

pub to_upper_idem : (s : Text) → to_upper (to_upper s) ≡ to_upper s
unfolding to_upper
to_upper_idem [] = refl
to_upper_idem (c ∷ s) = ground (arith, to_upper_idem s)

abbrev is_hex : ℕ → Bool
is_hex c = is_digit c || (leb b'a' c && leb c b'f' || leb b'A' c && leb c b'F')

abbrev has_hex_prefix : Text → Bool
has_hex_prefix [] = false
has_hex_prefix (a ∷ []) = false
has_hex_prefix (a ∷ b ∷ s) = a == b'0' && b == b'x'

-- `/^0x[0-9a-fA-F]{40}$/.test(s)`
unfoldable pub is_hex_address : Text → Bool
is_hex_address s = length s == 42 && (has_hex_prefix s && every is_hex (drop 2 s))

-- The white space of ASCII.
abbrev pub is_space : ℕ → Bool
is_space c = c == 32 || leb 9 c && leb c 13

unfoldable pub trim_start : Text → Text
trim_start [] = []
trim_start (c ∷ s) = let rest = trim_start s in if is_space c then rest else c ∷ s

abbrev no_codes : Text → Bool
no_codes [] = true
no_codes (c ∷ s) = false

unfoldable pub trim_end : Text → Text
trim_end [] = []
trim_end (c ∷ s) = let rest = trim_end s in if is_space c && no_codes rest then [] else c ∷ rest

unfoldable pub trim : Text → Text
trim s = trim_end (trim_start s)

-- Trimming keeps the characters that are no white space.
module _ (p : ℕ → Bool) (visible : (c : ℕ) → is_space c ≡ true → p c ≡ false) where
  any-trim_start : (s : Text) → any p (trim_start s) ≡ any p s
  unfolding trim_start
  any-trim_start [] = refl
  any-trim_start (c ∷ s) = ground (arith, visible c, any-trim_start s)

  any-cut :
      (c : ℕ) (rest : Text)
      → any p (if is_space c && no_codes rest then [] else c ∷ rest) ≡ (p c || any p rest)
  any-cut c [] = ground (arith, visible c)
  any-cut c (d ∷ rest) = ground arith

  any-trim_end : (s : Text) → any p (trim_end s) ≡ any p s
  unfolding trim_end
  any-trim_end [] = refl
  any-trim_end (c ∷ s) = any-cut c (trim_end s) ∙ ap (λ b. p c || b) (any-trim_end s)

  pub any-trim : (s : Text) → any p (trim s) ≡ any p s
  unfolding trim
  any-trim s = any-trim_end (trim_start s) ∙ any-trim_start s
