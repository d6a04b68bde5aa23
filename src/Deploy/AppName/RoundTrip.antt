-- ===== src/Deploy/AppName/RoundTrip.antt =====
-- The number of a space is read back from the name of its service.
use csghub_server.Deploy.AppName.{
  false, subst, length, room_for, take, number_to_string, unique_space_app_name, last_or,
  parse_unique_space_app_name, split, string_to_number, Text, int64_mod, decode, digit, encode,
  normal, value,
}
use csghub_server.Prelude.{
  if◌then◌else◌, ==_iff, subst, length-take_le, length-append, append_assoc, length, All-append,
  ltb→lt, split, Text, ◌%◌, ◌^◌, ◌/◌, ℕ, zero, suc, ◌≡◌, refl, ◌≢◌, inl, inr, Bool, true, List, [],
  ◌∷◌, ◌++◌, map, arith, All, ◌&&◌, ltb, ◌==◌, not, ◌+◌, ◌*◌, ◌<◌, ◌≤◌, ap, Bool-cases,
}
use native.Mathlib.Nat.{pow-suc}
use mathlib.Core.List.{map-append, reverse-cons, reverse}

-- Whether a test passes for `count` digits from `d` on; all 36 are tried by evaluation.
passes_from : (ℕ → Bool) → ℕ → ℕ → Bool
passes_from test d zero = true
passes_from test d (suc count) = if test d then passes_from test (d + 1) count else false

passes_from-at :
    (test : ℕ → Bool) (d count wanted : ℕ)
    → passes_from test d count ≡ true
    → d ≤ wanted
    → wanted < d + count
    → test wanted ≡ true
unfolding passes_from
passes_from-at test d zero wanted ok low high = absurd (omega arith)
passes_from-at test d (suc count) wanted ok low high = elim (Bool-cases (d == wanted)) [
  | inl same ↦ subst (λ n. test n ≡ true) ((==_iff d wanted).0 same) (ground arith)
  | inr other ↦ passes_from-at test (d + 1) count wanted (ground arith) (ground arith) (omega arith)
]

good_digit : ℕ → Bool
good_digit d = value (digit d) == d && (normal (digit d) == digit d && not (digit d == b'-'))

digits_good : passes_from good_digit 0 36 ≡ true
unfolding passes_from good_digit value digit normal
digits_good = refl

digit_good : (d : ℕ) → d < 36 → good_digit d ≡ true
digit_good d h = passes_from-at good_digit 0 36 d digits_good (omega arith) h

value-digit : (d : ℕ) → d < 36 → value (digit d) ≡ d
unfolding good_digit
value-digit d h = ground (arith, digit_good d h)

normal-digit : (d : ℕ) → d < 36 → normal (digit d) ≡ digit d
unfolding good_digit
normal-digit d h = ground (arith, digit_good d h)

digit-ne-dash : (d : ℕ) → d < 36 → digit d ≢ b'-'
unfolding good_digit
digit-ne-dash d h = ground (arith, digit_good d h)

decode-append :
    (num : ℕ) (s : Text) (c : ℕ)
    → decode num (s ++ c ∷ []) ≡ (decode num s * 36 + value c) % int64_mod
unfolding decode
decode-append num [] c = refl
decode-append num (x ∷ s) c = decode-append ((num * 36 + value x) % int64_mod) s c

decode-nil : decode 0 [] ≡ 0
unfolding decode
decode-nil = refl

decode-encode : (f n : ℕ) → n < f → n < int64_mod → decode 0 (reverse (encode f n)) ≡ n
unfolding encode
decode-encode zero n h b = absurd (omega arith)
decode-encode (suc f) n h b = elim (Bool-cases (ltb 0 n)) [
  | inl more ↦
      rw
        (
          more,
          reverse-cons (digit (n % 36)) (encode f (n / 36)),
          decode-append,
          decode-encode f (n / 36) (quotient-lt more) (omega arith),
          value-digit (n % 36) (omega arith),
        )
        (omega arith)
  | inr done ↦ rw done (ground (arith, decode-nil))
]
  where
    quotient-lt : ltb 0 n ≡ true → n / 36 < f
    quotient-lt more = omega (arith, ltb→lt 0 n more)

-- Decoding inverts encoding, for every int64 that is not negative.
pub string_to_number-number_to_string :
    (n : ℕ) → n < 2 ^ 63 → string_to_number (number_to_string n) ≡ n
unfolding string_to_number number_to_string
string_to_number-number_to_string n h = decode-encode (n + 1) n (omega arith) (omega arith)

-- Bytes that the name keeps as they are, and that are no dash.
abbrev IsKept : ℕ → Type 0
IsKept c = (normal c ≡ c) × (c ≢ b'-')

encode-IsKept : (f n : ℕ) → All IsKept (encode f n)
unfolding encode
encode-IsKept zero n = tt
encode-IsKept (suc f) n = elim (Bool-cases (ltb 0 n)) [
  | inl more ↦ rw more (
    (normal-digit (n % 36) (omega arith), digit-ne-dash (n % 36) (omega arith)),
    encode-IsKept f (n / 36),
  )
  | inr done ↦ rw done tt
]

All-reverse : (s : Text) → All IsKept s → All IsKept (reverse s)
All-reverse [] h = tt
All-reverse (c ∷ s) h =
    rw (reverse-cons c s) (All-append IsKept (reverse s) (c ∷ []) (All-reverse s h.1) (h.0, tt))

map-kept : (s : Text) → All IsKept s → map normal s ≡ s
map-kept [] h = refl
map-kept (c ∷ s) h = cc (h.0.0, map-kept s h.1)

split-kept : (s : Text) → All IsKept s → split b'-' s ≡ s ∷ []
split-kept [] h = refl
split-kept (c ∷ s) h = rw (split-kept s h.1) (ground (arith, h.0.1))

-- The pieces of a text that ends in a dash and a text without one: there are two at least.
record EndsIn (e : Text) (ps : List Text) : Type 0 where
  first : Text
  second : Text
  others : List Text
  shape : ps ≡ first ∷ second ∷ others
  last : last_or second others ≡ e

split-EndsIn : (s e : Text) → All IsKept e → EndsIn e (split b'-' (s ++ b'-' ∷ e))
split-EndsIn [] e h = record {
  first = [];
  second = e;
  others = [];
  shape = rw (split-kept e h);
  last = refl;
}
split-EndsIn (c ∷ s) e h =
    let r = split-EndsIn s e h in
    elim (Bool-cases (c == b'-')) [
      | inl dash' ↦ record {
        first = [];
        second = r.first;
        others = r.second ∷ r.others;
        shape = rw (dash', r.shape);
        last = r.last;
      }
      | inr other ↦ record {
        first = c ∷ r.first;
        second = r.second;
        others = r.others;
        shape = rw (other, r.shape);
        last = r.last;
      }
    ]

last-split : (s e : Text) → All IsKept e → last_or [] (split b'-' (s ++ b'-' ∷ e)) ≡ e
last-split s e h = let r = split-EndsIn s e h in rw r.shape r.last

normal-dash : normal b'-' ≡ b'-'
unfolding normal
normal-dash = refl

name-shape :
    (a b : Text) (e : Text)
    → All IsKept e
    → map normal (a ++ (b'-' ∷ (b ++ (b'-' ∷ e)))) ≡ map normal (a ++ b'-' ∷ b) ++ b'-' ∷ e
name-shape a b e h = simp (map-append, append_assoc, normal-dash, map-kept e h)

-- The number of a space is read back from the name of its service, whatever the prefix, the
-- namespace and the name of the space are, and however much of them is cut off.
pub parse-unique_space_app_name :
    (prefix namespace name : Text) (n : ℕ)
    → n < 2 ^ 63
    → parse_unique_space_app_name (unique_space_app_name prefix namespace name n) ≡ n
unfolding parse_unique_space_app_name unique_space_app_name
parse-unique_space_app_name prefix namespace name n h =
    let e = number_to_string n in
    let kept : All IsKept e = All-reverse (encode (n + 1) n) (encode-IsKept (n + 1) n) in
    rw
      (
        name-shape prefix (take (room_for e) (namespace ++ (b'-' ∷ name))) e kept,
        last-split _ e kept,
      )
      (string_to_number-number_to_string n h)

length-encode : (k f n : ℕ) → n < 36 ^ k → length (encode f n) ≤ k
unfolding encode
length-encode k zero n h = omega arith
length-encode zero (suc f) n h = ground arith
length-encode (suc k) (suc f) n h = elim (Bool-cases (ltb 0 n)) [
  | inl more ↦ rw more (omega (arith, length-encode k f (n / 36) (fewer h)))
  | inr done ↦ rw done (omega arith)
]
  where
    fewer : n < 36 ^ suc k → n / 36 < 36 ^ k
    fewer lt = omega (arith, pow-suc 36 k)

length-reverse : (s : Text) → length (reverse s) ≡ length s
length-reverse [] = refl
length-reverse (c ∷ s) =
    rw reverse-cons (omega (arith, length-append (reverse s) (c ∷ []), length-reverse s))

length-map : (f : ℕ → ℕ) (s : Text) → length (map f s) ≡ length s
length-map f [] = refl
length-map f (c ∷ s) = ap suc (length-map f s)

length-number_to_string : (n : ℕ) → n < 2 ^ 63 → length (number_to_string n) ≤ 13
unfolding number_to_string
length-number_to_string n h =
    omega (arith, length-reverse (encode (n + 1) n), length-encode 13 (n + 1) n (omega arith))

-- The name of a service, behind a prefix of one byte, is never longer than the 63 bytes that a
-- label may have, whatever the namespace and the name; a longer prefix adds its length.
pub length-unique_space_app_name :
    (prefix namespace name : Text) (n : ℕ)
    → n < 2 ^ 63
    → length (unique_space_app_name prefix namespace name n) ≤ length prefix + 62
unfolding unique_space_app_name
length-unique_space_app_name prefix namespace name n h =
    let e = number_to_string n in
    let full = take (room_for e) (namespace ++ (b'-' ∷ name)) in
    rw length-map (
      omega (
        arith,
        length-append prefix (b'-' ∷ (full ++ (b'-' ∷ e))),
        length-append full (b'-' ∷ e),
        length-take_le (room_for e) (namespace ++ (b'-' ∷ name)),
        length-number_to_string n h,
      ))
