-- ===== src/Hlc/Digits.antt =====
-- Printing a timestamp and reading it back: `AppendInt` and the parser of `Update`.
use grid_kv.Base.{
  ℕ, zero, suc, ◌+◌, ◌-◌, ◌*◌, ◌/◌, ◌%◌, ◌^◌, ◌<◌, ◌≡◌, refl, ◌∙◌, ap, true, false, some, [], ◌∷◌,
  ◌++◌, Str, slt_nonneg, ==_iff, ◌==◌, Bool-cases, inl, inr, arith,
}
use native.Mathlib.Nat.{pow-suc}
use mathlib.Core.List.{append_assoc}
use grid_kv.Hlc.Defs.{
  digits_from, append_int, format, cut_colon, is_digit, parse_ts, parse_ctr, parse_remote,
}

-- The last digit of a number is a digit, and reading it behind the others gives the number back.
last_digit : (i : ℕ) → is_digit (b'0' + i % 10) ≡ true
last_digit i = ground arith

read_last : (i : ℕ) → i < 2 ^ 63 → (i / 10 * 10 + (b'0' + i % 10 - b'0')) % 2 ^ 64 ≡ i
read_last i small = omega arith

tenth_fits : (fuel i : ℕ) → i < 10 ^ suc fuel → i / 10 < 10 ^ fuel
tenth_fits fuel i lt = omega (arith, pow-suc 10 fuel)

parse_ts-digits_from :
    (fuel i : ℕ) (acc : Str)
    → i < 10 ^ fuel
    → i < 2 ^ 63
    → parse_ts 0 (digits_from fuel i acc) ≡ parse_ts i acc
unfolding digits_from parse_ts
parse_ts-digits_from zero i acc lt small = ground arith
parse_ts-digits_from (suc fuel) i acc lt small = elim (Bool-cases (i == 0)) [
  | inl z ↦ ground arith
  | inr nz ↦ rw nz (
      parse_ts-digits_from fuel (i / 10) ((b'0' + i % 10) ∷ acc) (tenth_fits fuel i lt)
        (omega arith)
      ∙ rw (last_digit i, read_last i small))
]

parse_ctr-digits_from :
    (fuel i : ℕ) (acc : Str)
    → i < 10 ^ fuel
    → i < 2 ^ 63
    → parse_ctr 0 (digits_from fuel i acc) ≡ parse_ctr i acc
unfolding digits_from parse_ctr
parse_ctr-digits_from zero i acc lt small = ground arith
parse_ctr-digits_from (suc fuel) i acc lt small = elim (Bool-cases (i == 0)) [
  | inl z ↦ ground arith
  | inr nz ↦ rw nz (
      parse_ctr-digits_from fuel (i / 10) ((b'0' + i % 10) ∷ acc) (tenth_fits fuel i lt)
        (omega arith)
      ∙ rw (last_digit i, read_last i small))
]

-- No byte is a colon.
abbrev pub NoColon : Str → Type 0
NoColon [] = Unit
NoColon (c ∷ s) = ((c == b':') ≡ false) × NoColon s

digits_from-NoColon : (fuel i : ℕ) (acc : Str) → NoColon acc → NoColon (digits_from fuel i acc)
unfolding digits_from
digits_from-NoColon zero i acc n = n
digits_from-NoColon (suc fuel) i acc n =
    ground (arith, digits_from-NoColon fuel (i / 10) ((b'0' + i % 10) ∷ acc))

digits_from-ne-nil :
    (fuel i : ℕ) (c : ℕ) (acc : Str) → (d : ℕ) × (s : Str) × (digits_from fuel i (c ∷ acc) ≡ d ∷ s)
unfolding digits_from
digits_from-ne-nil zero i c acc = (c, acc, refl)
digits_from-ne-nil (suc fuel) i c acc = elim (Bool-cases (i == 0)) [
  | inl z ↦ (c, acc, rw z)
  | inr nz ↦ rw nz (digits_from-ne-nil fuel (i / 10) (b'0' + i % 10) (c ∷ acc))
]

append_int-nil : (buf : Str) (i : ℕ) → append_int buf i ≡ buf ++ append_int [] i
unfolding append_int
append_int-nil buf i = ground (arith, append_assoc buf (b'-' ∷ []) (digits_from 20 (2 ^ 64 - i) []))

-- A number below 2^63 is printed as digits.
record Printed (i : ℕ) (s : Str) : Type 0 where
  no_colon : NoColon s
  not_empty : (d : ℕ) × (t : Str) × (s ≡ d ∷ t)
  read_ts : parse_ts 0 s ≡ some i
  read_ctr : parse_ctr 0 s ≡ i

append_int-digits_from :
    (i : ℕ) → i < 2 ^ 63 → (i == 0) ≡ false → append_int [] i ≡ digits_from 20 i []
unfolding append_int
append_int-digits_from i small nz = rw (nz, slt_nonneg i 0 small (omega arith)) (ground arith)

digits_not_empty : (i : ℕ) → (i == 0) ≡ false → (d : ℕ) × (t : Str) × (digits_from 20 i [] ≡ d ∷ t)
unfolding digits_from
digits_not_empty i nz = rw nz (digits_from-ne-nil 19 (i / 10) (b'0' + i % 10) [])

digits-Printed : (i : ℕ) → i < 2 ^ 63 → (i == 0) ≡ false → Printed i (digits_from 20 i [])
unfolding parse_ts parse_ctr
digits-Printed i small nz = record {
  no_colon = digits_from-NoColon 20 i [] tt;
  not_empty = digits_not_empty i nz;
  read_ts = parse_ts-digits_from 20 i [] (omega arith) small;
  read_ctr = parse_ctr-digits_from 20 i [] (omega arith) small;
}

zero-Printed : Printed 0 (b'0' ∷ [])
unfolding parse_ts parse_ctr
zero-Printed = record {
  no_colon = (refl, tt);
  not_empty = (b'0', [], refl);
  read_ts = refl;
  read_ctr = refl;
}

append_int-zero : append_int [] 0 ≡ b'0' ∷ []
unfolding append_int
append_int-zero = refl

append_int-Printed : (i : ℕ) → i < 2 ^ 63 → Printed i (append_int [] i)
append_int-Printed i small = elim (Bool-cases (i == 0)) [
  | inl z ↦ rw ((==_iff i 0).0 z, append_int-zero) zero-Printed
  | inr nz ↦ rw (append_int-digits_from i small nz) (digits-Printed i small nz)
]

cut_colon-append : (s t : Str) → NoColon s → cut_colon (s ++ b':' ∷ t) ≡ some (s, t)
unfolding cut_colon
cut_colon-append [] t n = refl
cut_colon-append (c ∷ s) t n = rw (n.0, cut_colon-append s t n.1)

format-append :
    (node_id : Str) (ts ctr : ℕ)
    → format node_id ts ctr ≡ node_id ++ b':' ∷ (append_int [] ts ++ b':' ∷ append_int [] ctr)
unfolding format
format-append node_id ts ctr =
    append_int-nil (append_int (node_id ++ b':' ∷ []) ts ++ b':' ∷ []) ctr
    ∙ rw (append_int-nil (node_id ++ b':' ∷ []) ts) (simp append_assoc)

parse_remote_parts :
    (a : Str) (d : ℕ) (s : Str) (e : ℕ) (t : Str) (ts : ℕ)
    → NoColon a
    → NoColon (d ∷ s)
    → parse_ts 0 (d ∷ s) ≡ some ts
    → parse_remote (a ++ b':' ∷ (d ∷ s ++ b':' ∷ e ∷ t)) ≡ some (ts, parse_ctr 0 (e ∷ t))
unfolding parse_remote
parse_remote_parts a d s e t ts n m r = rw (
  cut_colon-append a (d ∷ s ++ b':' ∷ e ∷ t) n,
  parse_remote,
  cut_colon-append (d ∷ s) (e ∷ t) m,
  parse_remote,
  r,
  parse_remote,
)

parse_remote-Printed :
    (a : Str) (ts ctr : ℕ) (s t : Str)
    → NoColon a
    → Printed ts s
    → Printed ctr t
    → parse_remote (a ++ b':' ∷ (s ++ b':' ∷ t)) ≡ some (ts, ctr)
parse_remote-Printed a ts ctr [] t n p q = cc (p.not_empty.2)
parse_remote-Printed a ts ctr (d ∷ s) [] n p q = cc (q.not_empty.2)
parse_remote-Printed a ts ctr (d ∷ s) (e ∷ t) n p q =
    parse_remote_parts a d s e t ts n p.no_colon p.read_ts ∙ ap (λ (c : ℕ). some (ts, c)) q.read_ctr

-- The text that a clock gives out reads back as the two numbers that it was made from, for a node
-- ID without a colon and numbers below 2^63.
pub parse_remote-format :
    (node_id : Str) (ts ctr : ℕ)
    → NoColon node_id
    → ts < 2 ^ 63
    → ctr < 2 ^ 63
    → parse_remote (format node_id ts ctr) ≡ some (ts, ctr)
parse_remote-format node_id ts ctr n small_ts small_ctr = rw (format-append node_id ts ctr) (
    parse_remote-Printed node_id ts ctr (append_int [] ts) (append_int [] ctr) n
      (append_int-Printed ts small_ts) (append_int-Printed ctr small_ctr))
