-- ===== src/Deploy/AppName.antt =====
-- builder/deploy/common/appname.go: the name of the service of a space, which ends in the number of
-- the space in base 36. Names are ASCII; a number is an int64 that is not negative.
use csghub_server.Prelude.{
  codes, length, split, take, Text, lower, ◌%◌, ◌^◌, ◌/◌, ℕ, zero, suc, ◌≡◌, refl, ◌≢◌, ◌⊎◌, inl,
  inr, Bool, true, false, Option, none, some, List, [], ◌∷◌, ◌++◌, map, arith, All, In, here, there,
  keep, if◌then◌else◌, ◌||◌, ◌&&◌, ltb, leb, ◌==◌, int_eq, not, ◌+◌, ◌-◌, ◌*◌, ◌<◌, ◌≤◌, ◌∙◌, sym,
  ap, subst, Bool-cases, Option-cases, found, no_rows, failed, pos, negsuc,
}
use mathlib.Core.List.{reverse, reverse-append}
pub mod RoundTrip

abbrev pub alphabet : Text
alphabet = codes "0123456789abcdefghijklmnopqrstuvwxyz"

-- `alphabet[d]`, for a remainder `d`
abbrev pub digit_at : ℕ → Text → ℕ
digit_at d [] = 0
digit_at zero (c ∷ cs) = c
digit_at (suc d) (c ∷ cs) = digit_at d cs

unfoldable pub digit : ℕ → ℕ
digit d = digit_at d alphabet

-- `alphabetMap[c]`, which is 0 for a byte that is not there; `i` counts from the start.
abbrev pub value_from : ℕ → Text → ℕ → ℕ
value_from i [] c = 0
value_from i (a ∷ as') c = if a == c then i else value_from (i + 1) as' c

unfoldable pub value : ℕ → ℕ
value c = value_from 0 alphabet c

-- The loop of `numberToString`, least digit first, with fuel.
unfoldable pub encode : ℕ → ℕ → Text
encode zero n = []
encode (suc f) n = let rest = encode f (n / 36) in if ltb 0 n then digit (n % 36) ∷ rest else []

-- More rounds than `n` are never made.
unfoldable pub number_to_string : ℕ → Text
unfolding encode digit
number_to_string n = reverse (encode (n + 1) n)

-- The sum and the product wrap at 64 bits.
abbrev pub int64_mod : ℕ
int64_mod = 2 ^ 64

unfoldable pub decode : ℕ → Text → ℕ
decode num [] = num
decode num (c ∷ cs) = decode ((num * 36 + value c) % int64_mod) cs

unfoldable pub string_to_number : Text → ℕ
unfolding decode value
string_to_number s = decode 0 s

-- `ToLower`, after `_` and `.` were replaced.
abbrev pub dash : ℕ → ℕ
dash c = if c == b'_' then b'-' else if c == b'.' then b'-' else c

unfoldable pub normal : ℕ → ℕ
normal c = lower (dash c)

-- `max - len - 3`, the room for the namespace and the name
abbrev pub room_for : Text → ℕ
room_for id = 63 - length id - 3

unfoldable pub unique_space_app_name : Text → Text → Text → ℕ → Text
unfolding number_to_string normal
unique_space_app_name prefix namespace name space_id =
    let id = number_to_string space_id in
    let full = take (room_for id) (namespace ++ (b'-' ∷ name)) in
    map normal (prefix ++ (b'-' ∷ (full ++ (b'-' ∷ id))))

abbrev pub last_or : Text → List Text → Text
last_or d [] = d
last_or d (p ∷ ps) = last_or p ps

unfoldable pub parse_unique_space_app_name : Text → ℕ
unfolding string_to_number
parse_unique_space_app_name s = string_to_number (last_or [] (split b'-' s))
