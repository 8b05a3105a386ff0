-- ===== src/Std/Base64.antt =====
-- `base64.StdEncoding` of the Go standard library, over lists of byte values.
use trillian_serverless.Std.Lines.{IsPlain}
use trillian_serverless.Base.{
  ℕ, ◌+◌, ◌-◌, ◌*◌, ◌/◌, ◌%◌, ◌<◌, ◌≡◌, refl, ◌≢◌, Bool, true, false, ◌&&◌, ◌||◌, Option, none,
  some, [], ◌∷◌, ◌++◌, arith, ltb, leb, ◌==◌, if◌then◌else◌, Bytes,
}

-- Every element is the value of one byte.
abbrev pub AreBytes : Bytes → Type 0
AreBytes [] = Unit
AreBytes (b ∷ bs) = (b < 256) × AreBytes bs

unfoldable pub symbol : ℕ → ℕ
symbol n =
    if ltb n 26
    then n + 65
    else if ltb n 52
    then n + 71
    else if ltb n 62
    then n - 4
    else if n == 62
    then 43
    else 47

value : ℕ → Option ℕ
value c =
    if leb 65 c && leb c 90
    then some (c - 65)
    else if leb 97 c && leb c 122
    then some (c - 71)
    else if leb 48 c && leb c 57
    then some (c + 4)
    else if c == 43
    then some 62
    else if c == 47
    then some 63
    else none

unfoldable pub encode : Bytes → Bytes
encode [] = []
encode (a ∷ []) = symbol (a / 4) ∷ symbol (a % 4 * 16) ∷ 61 ∷ 61 ∷ []
encode (a ∷ b ∷ []) = symbol (a / 4) ∷ symbol (a % 4 * 16 + b / 16) ∷ symbol (b % 16 * 4) ∷ 61 ∷ []
encode (a ∷ b ∷ c ∷ r) =
    symbol (a / 4)
    ∷ symbol (a % 4 * 16 + b / 16)
    ∷ symbol (b % 16 * 4 + c / 64)
    ∷ symbol (c % 64)
    ∷ encode r

-- The bytes of one quantum, which `last` says may be padded.
quantum : Bool → ℕ → ℕ → ℕ → ℕ → Option Bytes
unfolding value
quantum last a b c d = elim (value a) [
  | none ↦ none
  | some w ↦ elim (value b) [
    | none ↦ none
    | some x ↦ elim (value c) [
      | none ↦ if last && (c == 61 && d == 61) then some ((w * 4 + x / 16) ∷ []) else none
      | some y ↦ elim (value d) [
        | none ↦
            if last && d == 61 then some ((w * 4 + x / 16) ∷ (x % 16 * 16 + y / 4) ∷ []) else none
        | some z ↦ some ((w * 4 + x / 16) ∷ (x % 16 * 16 + y / 4) ∷ (y % 4 * 64 + z) ∷ [])
      ]
    ]
  ]
]

abbrev is_empty : Bytes → Bool
is_empty [] = true
is_empty (_ ∷ _) = false

abbrev join : Option Bytes → Option Bytes → Option Bytes
join (some xs) (some ys) = some (xs ++ ys)
join _ _ = none

quanta : Bytes → Option Bytes
quanta [] = some []
quanta (a ∷ b ∷ c ∷ d ∷ r) = join (quantum (is_empty r) a b c d) (quanta r)
quanta _ = none

-- The decoder skips line ends.
strip : Bytes → Bytes
strip [] = []
strip (c ∷ cs) = let rest = strip cs in if c == 10 || c == 13 then rest else c ∷ rest

unfoldable pub decode : Bytes → Option Bytes
unfolding quanta quantum strip
decode cs = quanta (strip cs)

-- A symbol of the alphabet: it has a value, and is no padding and no space.
symbol_lem : (n : ℕ) → n < 64 → (value (symbol n) ≡ some n) × (symbol n ≢ 61) × (32 < symbol n)
unfolding symbol value
symbol_lem n h = ground arith

strip-eq_self : (cs : Bytes) → IsPlain cs → strip cs ≡ cs
unfolding strip
strip-eq_self [] h = refl
strip-eq_self (c ∷ cs) h = rw (strip-eq_self cs h.1) (ground arith)

pub encode-IsPlain : (bs : Bytes) → AreBytes bs → IsPlain (encode bs)
unfolding encode
encode-IsPlain [] h = tt
encode-IsPlain (a ∷ []) h = ground (arith, symbol_lem (a / 4), symbol_lem (a % 4 * 16))
encode-IsPlain (a ∷ b ∷ []) h =
    ground (arith, symbol_lem (a / 4), symbol_lem (a % 4 * 16 + b / 16), symbol_lem (b % 16 * 4))
encode-IsPlain (a ∷ b ∷ c ∷ r) h = ground (
  arith,
  symbol_lem (a / 4),
  symbol_lem (a % 4 * 16 + b / 16),
  symbol_lem (b % 16 * 4 + c / 64),
  symbol_lem (c % 64),
  encode-IsPlain r,
)

quantum_full :
    (last : Bool) (w x y z : ℕ)
    → w < 64
    → x < 64
    → y < 64
    → z < 64
    → quantum last (symbol w) (symbol x) (symbol y) (symbol z)
      ≡ some ((w * 4 + x / 16) ∷ (x % 16 * 16 + y / 4) ∷ (y % 4 * 64 + z) ∷ [])
unfolding quantum
quantum_full last w x y z hw hx hy hz =
    rw ((symbol_lem w hw).0, quantum)
      (rw ((symbol_lem x hx).0) (rw ((symbol_lem y hy).0) (rw ((symbol_lem z hz).0))))

quantum_one :
    (w x : ℕ)
    → w < 64
    → x < 64
    → quantum true (symbol w) (symbol x) 61 61 ≡ some ((w * 4 + x / 16) ∷ [])
unfolding quantum
quantum_one w x hw hx = rw ((symbol_lem w hw).0, quantum) (rw ((symbol_lem x hx).0))

quantum_two :
    (w x y : ℕ)
    → w < 64
    → x < 64
    → y < 64
    → quantum true (symbol w) (symbol x) (symbol y) 61
      ≡ some ((w * 4 + x / 16) ∷ (x % 16 * 16 + y / 4) ∷ [])
unfolding quantum
quantum_two w x y hw hx hy =
    rw ((symbol_lem w hw).0, quantum) (rw ((symbol_lem x hx).0) (rw ((symbol_lem y hy).0)))

quanta-encode : (bs : Bytes) → AreBytes bs → quanta (encode bs) ≡ some bs
unfolding quanta encode
quanta-encode [] h = refl
quanta-encode (a ∷ []) h =
    rw (quantum_one (a / 4) (a % 4 * 16) (omega arith) (omega arith)) (ground arith)
quanta-encode (a ∷ b ∷ []) h =
    rw
      (quantum_two (a / 4) (a % 4 * 16 + b / 16) (b % 16 * 4) (omega arith) (omega arith)
        (omega arith))
      (ground arith)
quanta-encode (a ∷ b ∷ c ∷ r) h = rw (quanta-encode r h.1.1.1) (
    rw
      (quantum_full _ (a / 4) (a % 4 * 16 + b / 16) (b % 16 * 4 + c / 64) (c % 64) (omega arith)
        (omega arith) (omega arith) (omega arith))
      (ground arith))

-- Decoding undoes encoding.
pub decode-encode : (bs : Bytes) → AreBytes bs → decode (encode bs) ≡ some bs
decode-encode bs h =
    unfold decode in rw (strip-eq_self (encode bs) (encode-IsPlain bs h)) (quanta-encode bs h)
