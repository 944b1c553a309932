-- ===== src/Prelude/ByteText.antt =====
-- Texts as lists of bytes, where the program measures and joins them, and decimal numbers.
use Prim.Native.Nat.{ℕ, zero, suc, ◌+◌, ◌*◌, ◌/◌, ◌%◌, ◌-◌, ◌<◌}
use mathlib.Core.Path.{◌≡◌, refl, ap, sym, ◌∙◌}
use mathlib.Core.Logic.{◌↔◌, inl, inr}
use mathlib.Core.Bool.{Bool, true, false, ◌&&◌}
use mathlib.Core.List.{List, [], ◌∷◌, ◌++◌}
use native.Mathlib.Omega.{arith}
use watt_gateway.Prelude.Tests.{◌==◌, ltb, if◌then◌else◌, Bool-cases}
use watt_gateway.Prelude.Lists.{length}
use watt_gateway.Prelude.Tables.{Eq}

abbrev pub Bytes : Type 0
Bytes = List ℕ

abbrev pub bytes_beq : Bytes → Bytes → Bool
bytes_beq [] [] = true
bytes_beq (x ∷ xs) (y ∷ ys) = x == y && bytes_beq xs ys
bytes_beq _ _ = false

pub bytes_beq_iff : (a b : Bytes) → (bytes_beq a b ≡ true) ↔ (a ≡ b)
bytes_beq_iff [] [] = (λ h. refl, λ h. refl)
bytes_beq_iff [] (y ∷ ys) = (λ h. cc, λ h. cc)
bytes_beq_iff (x ∷ xs) [] = (λ h. cc, λ h. cc)
bytes_beq_iff (x ∷ xs) (y ∷ ys) =
    (λ h. ground (arith, (bytes_beq_iff xs ys).0), λ h. ground (arith, (bytes_beq_iff xs ys).1))

instance abbrev pub bytes_eq : Eq Bytes
bytes_eq = record { beq = bytes_beq; beq_iff = bytes_beq_iff }

-- The decimal digits of a number, in front of `rest`; `fuel` bounds the digits.
decimal_from : ℕ → ℕ → Bytes → Bytes
decimal_from zero n rest = rest
decimal_from (suc fuel) n rest =
    let more = decimal_from fuel (n / 10) ((48 + n % 10) ∷ rest) in
    if ltb n 10 then (48 + n) ∷ rest else more

-- `format!("{n}")`, in front of `rest`
pub decimal : ℕ → Bytes → Bytes
decimal n rest = decimal_from (suc n) n rest

-- Reads digits up to the first other byte.
read_decimal : ℕ → Bytes → ℕ × Bytes
read_decimal acc [] = (acc, [])
read_decimal acc (c ∷ cs) =
    let more = read_decimal (acc * 10 + (c - 48)) cs in
    if ltb c 48 then (acc, c ∷ cs) else if ltb 57 c then (acc, c ∷ cs) else more

read_digit :
    (acc d : ℕ) (rest : Bytes)
    → d < 10
    → read_decimal acc ((48 + d) ∷ rest) ≡ read_decimal (acc * 10 + d) rest
unfolding read_decimal
read_digit acc d rest h = ground (arith, ap (λ (n : ℕ). read_decimal n rest) (drop_48 acc d))
  where
    drop_48 : (acc d : ℕ) → acc * 10 + (48 + d - 48) ≡ acc * 10 + d
    drop_48 acc d = omega arith

read-decimal_from :
    (fuel n : ℕ) (rest : Bytes)
    → n < fuel
    → read_decimal 0 (decimal_from fuel n rest) ≡ read_decimal n rest
unfolding decimal_from
read-decimal_from zero n rest h = absurd (omega arith)
read-decimal_from (suc fuel) n rest h = elim (Bool-cases (ltb n 10)) [
  | inl small ↦
      rw small
        (read_digit 0 n rest (ground arith) ∙ ap (λ (k : ℕ). read_decimal k rest) (omega arith))
  | inr large ↦ rw large (
      read-decimal_from fuel (n / 10) ((48 + n % 10) ∷ rest) (ground arith)
      ∙ read_digit (n / 10) (n % 10) rest (omega arith)
      ∙ ap (λ (k : ℕ). read_decimal k rest) (omega arith))
]

-- A number and what follows it can be told apart, if that begins with a colon.
pub decimal-injective :
    (m n : ℕ) (r s : Bytes) → decimal m (58 ∷ r) ≡ decimal n (58 ∷ s) → (m ≡ n) × (r ≡ s)
unfolding decimal
decimal-injective m n r s h =
    let e : read_decimal m (58 ∷ r) ≡ read_decimal n (58 ∷ s) =
      sym (read-decimal_from (suc m) m (58 ∷ r) (omega arith))
      ∙ ap (read_decimal 0) h
      ∙ read-decimal_from (suc n) n (58 ∷ s) (omega arith) in
    unfold read_decimal in (ap (λ (p : ℕ × Bytes). p.0) e, tail_eq (ap (λ (p : ℕ × Bytes). p.1) e))
  where
    tail_eq : {a b : Bytes} → 58 ∷ a ≡ 58 ∷ b → a ≡ b
    tail_eq e = cc

-- Two joined texts of which the first parts are equally long have equal parts.
pub append-injective : (a b c d : Bytes) → length a ≡ length c → a ++ b ≡ c ++ d → (a ≡ c) × (b ≡ d)
append-injective [] b [] d l e = (refl, e)
append-injective [] b (y ∷ c) d l e = absurd (omega arith)
append-injective (x ∷ a) b [] d l e = absurd (omega arith)
append-injective (x ∷ a) b (y ∷ c) d l e =
    let (p, q) = append-injective a b c d (omega arith) (cc) in (cc, q)
