-- ===== src/Bencode/Decimal.antt =====
-- Decimal numerals: what `%d` prints and `strconv.ParseInt` at base 10 and 64 bits, like
-- `strconv.Atoi`, reads.
use monogo.Base.{
  ℕ, zero, suc, ◌+◌, ◌-◌, ◌*◌, ◌/◌, ◌%◌, ◌≤◌, ◌<◌, ◌≡◌, ◌≢◌, refl, ap, subst, eq_of_some_eq, ◌∙◌,
  Bool, true, false, ◌&&◌, [], ◌∷◌, ◌++◌, Option, none, some, Text, ◌==◌, ltb, leb, if◌then◌else◌,
  arith, Bool-cases, inl, inr, ℤ, pos, negsuc, All,
}

unfoldable pub digits_within : ℕ → ℕ → Text
digits_within zero n = (48 + n) ∷ []
digits_within (suc fuel) n =
    let front = digits_within fuel (n / 10) in
    if ltb n 10 then (48 + n) ∷ [] else front ++ (48 + n % 10) ∷ []

unfoldable pub digits : ℕ → Text
unfolding digits_within
digits n = digits_within n n

unfoldable pub show_int : ℤ → Text
show_int (pos n) = digits n
show_int (negsuc n) = 45 ∷ digits (suc n)

abbrev pub is_digit : ℕ → Bool
is_digit c = leb 48 c && leb c 57

unfoldable pub parse_digits : ℕ → Text → Option ℕ
parse_digits acc [] = some acc
parse_digits acc (c ∷ s) =
    let rest = parse_digits (acc * 10 + (c - 48)) s in if is_digit c then rest else none

-- `2 ^ 63`.
abbrev pub int_limit : ℕ
int_limit = 9223372036854775808

abbrev in_range : Option ℕ → Option ℤ
in_range none = none
in_range (some n) = if ltb n int_limit then some (pos n) else none

abbrev negated : ℕ → ℤ
negated zero = pos 0
negated (suc n) = negsuc n

abbrev negative_in_range : Option ℕ → Option ℤ
negative_in_range none = none
negative_in_range (some n) = if leb n int_limit then some (negated n) else none

abbrev nonempty : Text → Option ℕ → Option ℕ
nonempty [] o = none
nonempty (c ∷ s) o = o

unfoldable pub parse_int : Text → Option ℤ
parse_int [] = none
parse_int (c ∷ s) =
    if c == 45
    then negative_in_range (nonempty s (parse_digits 0 s))
    else if c == 43
    then in_range (nonempty s (parse_digits 0 s))
    else in_range (parse_digits 0 (c ∷ s))

abbrev pub AllDigits : Text → Type 0
AllDigits = All (λ c. is_digit c ≡ true)

digit_code : (d : ℕ) → d < 10 → is_digit (48 + d) ≡ true
digit_code d h = ground arith

none-some : {n : ℕ} → none ≢ some n
none-some h = cc

parse_digits-snoc :
    (acc n d : ℕ) (s : Text)
    → parse_digits acc s ≡ some n
    → d < 10
    → parse_digits acc (s ++ (48 + d) ∷ []) ≡ some (n * 10 + d)
unfolding parse_digits
parse_digits-snoc acc n d [] h small =
    let same : acc ≡ n = eq_of_some_eq h in rw (digit_code d small) (ap some (omega arith))
parse_digits-snoc acc n d (c ∷ s) h small = elim (Bool-cases (is_digit c)) [
  | inl e ↦ rw e (parse_digits-snoc (acc * 10 + (c - 48)) n d s (rw e at h) small)
  | inr e ↦ absurd (none-some (rw e at h))
]

snoc-AllDigits : (s : Text) (d : ℕ) → AllDigits s → d < 10 → AllDigits (s ++ (48 + d) ∷ [])
snoc-AllDigits [] d h small = (ground arith, tt)
snoc-AllDigits (c ∷ s) d (h, hs) small = (h, snoc-AllDigits s d hs small)

parse_nothing : (n : ℕ) → parse_digits n [] ≡ some n
unfolding parse_digits
parse_nothing n = refl

parse_one : (n : ℕ) → n < 10 → parse_digits 0 ((48 + n) ∷ []) ≡ some n
parse_one n small =
    let value : 0 * 10 + n ≡ n = omega arith in
    parse_digits-snoc 0 0 n [] (parse_nothing 0) small ∙ ap some value

parse-digits_within : (fuel n : ℕ) → n ≤ fuel → parse_digits 0 (digits_within fuel n) ≡ some n
unfolding digits_within
parse-digits_within zero n h = let small : n < 10 = omega arith in parse_one n small
parse-digits_within (suc fuel) n h = elim (Bool-cases (ltb n 10)) [
  | inl e ↦ rw e (parse_one n (ground arith))
  | inr e ↦
      let front = parse-digits_within fuel (n / 10) (ground arith) in
      let value : n / 10 * 10 + n % 10 ≡ n = omega arith in
      rw e (
        parse_digits-snoc 0 (n / 10) (n % 10) (digits_within fuel (n / 10)) front (omega arith)
        ∙ ap some value)
]

digits_within-AllDigits : (fuel n : ℕ) → n ≤ fuel → AllDigits (digits_within fuel n)
unfolding digits_within
digits_within-AllDigits zero n h = (digit_code n (omega arith), tt)
digits_within-AllDigits (suc fuel) n h = elim (Bool-cases (ltb n 10)) [
  | inl e ↦ rw e (digit_code n (ground arith), tt)
  | inr e ↦ rw e (
      snoc-AllDigits (digits_within fuel (n / 10)) (n % 10)
        (digits_within-AllDigits fuel (n / 10) (ground arith)) (omega arith))
]

pub digits-AllDigits : (n : ℕ) → AllDigits (digits n)
unfolding digits
digits-AllDigits n = digits_within-AllDigits n n (omega arith)

pub parse-digits : (n : ℕ) → parse_digits 0 (digits n) ≡ some n
unfolding digits
parse-digits n = parse-digits_within n n (omega arith)

-- A numeral has a first digit.
head-snoc : (s : Text) (d : ℕ) → (c : ℕ) × (t : Text) × (s ++ d ∷ [] ≡ c ∷ t)
head-snoc [] d = (d, [], refl)
head-snoc (c ∷ s) d = (c, s ++ d ∷ [], refl)

digits_within-head : (fuel n : ℕ) → (c : ℕ) × (t : Text) × (digits_within fuel n ≡ c ∷ t)
unfolding digits_within
digits_within-head zero n = (48 + n, [], refl)
digits_within-head (suc fuel) n = elim (Bool-cases (ltb n 10)) [
  | inl e ↦ rw e (48 + n, [], refl)
  | inr e ↦ rw e (head-snoc (digits_within fuel (n / 10)) (48 + n % 10))
]

pub digits-head : (n : ℕ) → (c : ℕ) × (t : Text) × (digits n ≡ c ∷ t) × (is_digit c ≡ true)
unfolding digits
digits-head n =
    let (c, t, e) = digits_within-head n n in
    let all : AllDigits (c ∷ t) = subst AllDigits e (digits_within-AllDigits n n (omega arith)) in
    (c, t, e, all.0)

parse_unsigned :
    (s : Text) (c n : ℕ) (t : Text)
    → s ≡ c ∷ t
    → is_digit c ≡ true
    → parse_digits 0 s ≡ some n
    → n < int_limit
    → parse_int s ≡ some (pos n)
unfolding parse_int
parse_unsigned s c n t e d h small =
    let minus : (c == 45) ≡ false = ground arith in
    let plus : (c == 43) ≡ false = ground arith in
    let value : parse_digits 0 (c ∷ t) ≡ some n = subst (λ u. parse_digits 0 u ≡ some n) e h in
    let fits : ltb n int_limit ≡ true = ground arith in
    rw e (rw minus (rw plus (rw value (rw fits refl))))

pub parse_int-digits : (n : ℕ) → n < int_limit → parse_int (digits n) ≡ some (pos n)
parse_int-digits n small =
    let (c, t, e, d) = digits-head n in parse_unsigned (digits n) c n t e d (parse-digits n) small

parse_negative :
    (s : Text) (c n : ℕ) (t : Text)
    → s ≡ c ∷ t
    → parse_digits 0 s ≡ some (suc n)
    → suc n ≤ int_limit
    → parse_int (45 ∷ s) ≡ some (negsuc n)
unfolding parse_int
parse_negative s c n t e h small =
    let value : parse_digits 0 (c ∷ t) ≡ some (suc n) =
      subst (λ u. parse_digits 0 u ≡ some (suc n)) e h in
    let fits : leb (suc n) int_limit ≡ true = ground arith in rw e (rw value (rw fits refl))

-- The integers of 64 bits.
abbrev pub IsInt64 : ℤ → Type 0
IsInt64 (pos n) = n < int_limit
IsInt64 (negsuc n) = n < int_limit

pub parse_int-show_int : (z : ℤ) → IsInt64 z → parse_int (show_int z) ≡ some z
unfolding show_int
parse_int-show_int (pos n) h = parse_int-digits n h
parse_int-show_int (negsuc n) h =
    let (c, t, e, d) = digits-head (suc n) in
    parse_negative (digits (suc n)) c n t e (parse-digits (suc n)) (omega arith)
