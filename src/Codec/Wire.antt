-- ===== src/Codec/Wire.antt =====
-- The primitives of the binary formats of internal/cluster/codec.go. A reader takes the bytes from
-- its offset on and gives what it read with the bytes that follow; none is the source's offset 0.
use grid_kv.Base.{
  ℕ, zero, suc, ◌+◌, ◌*◌, ◌/◌, ◌%◌, ◌^◌, ◌<◌, ◌≡◌, refl, ◌∙◌, ap, Bool, true, false, Option, none,
  some, List, [], ◌∷◌, ◌++◌, Str, length, arith,
}
use mathlib.Core.List.{append_assoc}
use native.Mathlib.Nat.{div-add-mod}

infixl 5 ◌>>=◌
abbrev pub ◌>>=◌ {ℓ κ} : {A : Type ℓ} {B : Type κ} → Option A → (A → Option B) → Option B
none >>= f = none
some a >>= f = f a

pub bind-some {ℓ κ} :
    {A : Type ℓ} {B : Type κ} {m : Option A} (f : A → Option B) {a : A}
    → m ≡ some a
    → (m >>= f) ≡ f a
bind-some f e = ap (λ o. o >>= f) e

infixl 5 ◌>>◌
abbrev pub ◌>>◌ {ℓ} : {B : Type ℓ} → Option (Unit {0}) → Option B → Option B
m >> k = m >>= λ _. k

abbrev pub require : Bool → Option (Unit {0})
require true = some tt
require false = none

-- One more than the largest number of `k` bytes.
abbrev pub limit : ℕ → ℕ
limit zero = 1
limit (suc k) = 256 * limit k

-- `PutUint16`, `PutUint32` and `PutUint64`: the low bytes first
unfoldable pub put_uint : ℕ → ℕ → List ℕ
put_uint zero n = []
put_uint (suc k) n = n % 256 ∷ put_uint k (n / 256)

unfoldable pub get_uint : ℕ → List ℕ → Option (ℕ × List ℕ)
get_uint zero input = some (0, input)
get_uint (suc k) [] = none
get_uint (suc k) (b ∷ bs) = do (n, rest) ← get_uint k bs; some (b + 256 * n, rest)

-- `data[offset : offset+n]`, where that is in range
unfoldable pub get_bytes : ℕ → List ℕ → Option (List ℕ × List ℕ)
get_bytes zero input = some ([], input)
get_bytes (suc n) [] = none
get_bytes (suc n) (b ∷ bs) = do (bytes, rest) ← get_bytes n bs; some (b ∷ bytes, rest)

-- `encodeStringTo`: the length is cut to 16 bits, the bytes are not.
unfoldable pub encode_string : Str → List ℕ
unfolding put_uint
encode_string s = put_uint 2 (length s) ++ s

unfoldable pub decode_string : List ℕ → Option (Str × List ℕ)
unfolding get_uint get_bytes
decode_string input = do (n, rest) ← get_uint 2 input; get_bytes n rest

get_uint-step :
    (k n b : ℕ) (bs rest : List ℕ)
    → get_uint k bs ≡ some (n, rest)
    → get_uint (suc k) (b ∷ bs) ≡ some (b + 256 * n, rest)
unfolding get_uint
get_uint-step k n b bs rest e = rw e refl

low_byte : (n : ℕ) → n % 256 + 256 * (n / 256) ≡ n
low_byte n = omega (arith, div-add-mod n 256)

pub get_uint-put_uint :
    (k n : ℕ) (rest : List ℕ) → n < limit k → get_uint k (put_uint k n ++ rest) ≡ some (n, rest)
unfolding put_uint get_uint
get_uint-put_uint zero n rest h = ap (λ m. some (m, rest)) (omega arith)
get_uint-put_uint (suc k) n rest h =
    get_uint-step k (n / 256) (n % 256) (put_uint k (n / 256) ++ rest) rest
      (get_uint-put_uint k (n / 256) rest (omega (arith, low_byte n)))
    ∙ ap (λ m. some (m, rest)) (low_byte n)

get_bytes-step :
    (n b : ℕ) (bs bytes rest : List ℕ)
    → get_bytes n bs ≡ some (bytes, rest)
    → get_bytes (suc n) (b ∷ bs) ≡ some (b ∷ bytes, rest)
unfolding get_bytes
get_bytes-step n b bs bytes rest e = rw e refl

pub get_bytes-append :
    (bytes rest : List ℕ) → get_bytes (length bytes) (bytes ++ rest) ≡ some (bytes, rest)
unfolding get_bytes
get_bytes-append [] rest = refl
get_bytes-append (b ∷ bs) rest =
    get_bytes-step (length bs) b (bs ++ rest) bs rest (get_bytes-append bs rest)

decode_string_header :
    (input rest : List ℕ) (n : ℕ)
    → get_uint 2 input ≡ some (n, rest)
    → decode_string input ≡ get_bytes n rest
unfolding decode_string
decode_string_header input rest n e = rw (decode_string, e) refl

pub decode_string-encode_string :
    (s : Str) (rest : List ℕ)
    → length s < 2 ^ 16
    → decode_string (encode_string s ++ rest) ≡ some (s, rest)
unfolding encode_string
decode_string-encode_string s rest h =
    ap decode_string (append_assoc (put_uint 2 (length s)) s rest)
    ∙ decode_string_header (put_uint 2 (length s) ++ (s ++ rest)) (s ++ rest) (length s)
        (get_uint-put_uint 2 (length s) (s ++ rest) h)
    ∙ get_bytes-append s rest
