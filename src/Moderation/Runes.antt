-- ===== src/Moderation/Runes.antt =====
-- The code points of a text as Go's `range` over a string decodes them: the first bytes of UTF-8, and
-- U+FFFD for a byte that begins none.
use csghub_server.Prelude.{
  Text, ℕ, zero, suc, ◌+◌, ◌-◌, ◌*◌, ltb, leb, ◌==◌, ◌&&◌, Bool, List, [], ◌∷◌, if◌then◌else◌,
}

abbrev pub within : ℕ → ℕ → ℕ → Bool
within low high b = leb low b && leb b high

-- A byte that continues a code point, and the least and the greatest that may follow a first byte
abbrev pub continues : ℕ → Bool
continues b = within 128 191 b

abbrev pub least_second : ℕ → ℕ
least_second b = if b == 224 then 160 else if b == 240 then 144 else 128

abbrev pub greatest_second : ℕ → ℕ
greatest_second b = if b == 237 then 159 else if b == 244 then 143 else 191

abbrev pub second_fits : ℕ → ℕ → Bool
second_fits b c = within (least_second b) (greatest_second b) c

-- The code point at the front, and its length
abbrev pub invalid : ℕ × ℕ
invalid = (65533, 1)

abbrev pub rune_of_two : ℕ → Text → ℕ × ℕ
rune_of_two b [] = invalid
rune_of_two b (c ∷ s) = if continues c then ((b - 192) * 64 + (c - 128), 2) else invalid

abbrev pub rune_of_three : ℕ → Text → ℕ × ℕ
rune_of_three b [] = invalid
rune_of_three b (c ∷ []) = invalid
rune_of_three b (c ∷ d ∷ s) =
    if second_fits b c && continues d
    then ((b - 224) * 4096 + (c - 128) * 64 + (d - 128), 3)
    else invalid

abbrev pub rune_of_four : ℕ → Text → ℕ × ℕ
rune_of_four b [] = invalid
rune_of_four b (c ∷ []) = invalid
rune_of_four b (c ∷ d ∷ []) = invalid
rune_of_four b (c ∷ d ∷ e ∷ s) =
    if second_fits b c && (continues d && continues e)
    then ((b - 240) * 262144 + (c - 128) * 4096 + (d - 128) * 64 + (e - 128), 4)
    else invalid

abbrev pub first_rune : ℕ → Text → ℕ × ℕ
first_rune b s =
    if ltb b 128
    then (b, 1)
    else if within 194 223 b
    then rune_of_two b s
    else if within 224 239 b
    then rune_of_three b s
    else if within 240 244 b
    then rune_of_four b s
    else invalid

-- `skip` bytes belong to the code point before.
unfoldable pub runes_from : ℕ → Text → List ℕ
runes_from skip [] = []
runes_from zero (b ∷ s) = let r = first_rune b s in r.0 ∷ runes_from (r.1 - 1) s
runes_from (suc skip) (b ∷ s) = runes_from skip s

unfoldable pub runes : Text → List ℕ
runes text = runes_from 0 text
