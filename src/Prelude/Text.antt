-- ===== src/Prelude/Text.antt =====
-- A text that the program walks, as the list of its code units, and the methods of JavaScript's
-- strings that it uses.
use Prim.Native.Char.{code}
use mathlib.Core.List.{reverse}
use Prim.Native.Nat.{ℕ, zero, suc, ◌+◌, ◌/◌, ◌%◌}
use mathlib.Core.Path.{◌≡◌, refl}
use native.Mathlib.Omega.{arith}
use Prim.Native.String.{String}
use mathlib.Core.Bool.{Bool, true, false, ◌&&◌, ◌||◌}
use mathlib.Core.List.{List, [], ◌∷◌, ◌++◌, map}
use kinetix_identity_service.Prelude.Tests.{leb, ◌==◌, if◌then◌else◌}

abbrev pub Text : Type 0
Text = List ℕ

abbrev pub codes : String → Text
codes String.[] = []
codes (String.◌∷◌ c s) = code c ∷ codes s

-- `a === b`
unfoldable pub text_eq : Text → Text → Bool
text_eq [] [] = true
text_eq (a ∷ s) (b ∷ t) = (a == b) && text_eq s t
text_eq _ _ = false

-- White space and line terminators of ECMAScript.
unfoldable pub is_space : ℕ → Bool
is_space c =
    (leb 9 c && leb c 13)
    || (c == 32)
    || (c == 160)
    || (c == 0x1680)
    || (leb 0x2000 c && leb c 0x200a)
    || (c == 0x2028)
    || (c == 0x2029)
    || (c == 0x202f)
    || (c == 0x205f)
    || (c == 0x3000)
    || (c == 0xfeff)

unfoldable pub drop_spaces : Text → Text
drop_spaces [] = []
drop_spaces (c ∷ s) = let rest = drop_spaces s in if is_space c then rest else c ∷ s

-- `s.trim()`
unfoldable pub trim : Text → Text
trim s = reverse (drop_spaces (reverse (drop_spaces s)))

-- The case mapping on the letters of ASCII.
unfoldable pub lower : ℕ → ℕ
lower c = if leb b'A' c && leb c b'Z' then c + 32 else c

-- `s.toLowerCase()`
unfoldable pub to_lower_case : Text → Text
to_lower_case = map lower

-- `parts.filter((part) => part.trim().length > 0).join(", ")`
unfoldable pub is_blank : Text → Bool
is_blank part = elim (trim part) [ [] ↦ true | c ∷ s ↦ false ]

abbrev pub join_parts : List Text → Text
join_parts [] = []
join_parts (part ∷ []) = part
join_parts (part ∷ next ∷ parts) =
    let rest = join_parts (next ∷ parts) in part ++ (b',' ∷ 32 ∷ rest)

unfoldable pub not_blank : List Text → List Text
not_blank [] = []
not_blank (part ∷ parts) = let rest = not_blank parts in if is_blank part then rest else part ∷ rest

-- `s.replace(/\s+/gu, " ")`; the flag says that the run of white space before is written already.
unfoldable pub collapse_spaces : Text → Bool → Text
collapse_spaces [] written = []
collapse_spaces (c ∷ s) written =
    let on = collapse_spaces s true in
    let off = collapse_spaces s false in
    if is_space c then (if written then on else 32 ∷ on) else c ∷ off

-- The digits of a number below 10 ^ rounds.
unfoldable pub decimal : ℕ → ℕ → Text
decimal zero n = []
decimal (suc rounds) n =
    let more = decimal rounds (n / 10) in
    if leb n 9 then (48 + n) ∷ [] else more ++ ((48 + n % 10) ∷ [])

abbrev pub onto_first : ℕ → List Text → List Text
onto_first c [] = (c ∷ []) ∷ []
onto_first c (part ∷ parts) = (c ∷ part) ∷ parts

-- `s.split(separator)`, for a separator of one code unit
unfoldable pub split_on : ℕ → Text → List Text
split_on separator [] = [] ∷ []
split_on separator (c ∷ s) =
    let parts = split_on separator s in if c == separator then [] ∷ parts else onto_first c parts

pub text_eq_sound : (s t : Text) → text_eq s t ≡ true → s ≡ t
unfolding text_eq
text_eq_sound [] [] h = refl
text_eq_sound [] (b ∷ t) h = ground arith
text_eq_sound (a ∷ s) [] h = ground arith
text_eq_sound (a ∷ s) (b ∷ t) h = ground (arith, text_eq_sound s t)

pub text_eq_refl : (s : Text) → text_eq s s ≡ true
unfolding text_eq
text_eq_refl [] = refl
text_eq_refl (c ∷ s) = ground (arith, text_eq_refl s)
