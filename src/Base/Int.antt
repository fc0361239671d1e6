-- ===== src/Base/Int.antt =====
-- Signed integers over the native numbers, and limits that may be infinite. Amounts of money are
-- floats in the source; here they are whole numbers of a smallest unit.
use Prim.Native.Nat.{ℕ, suc, ◌+◌, ◌-◌, ◌≤◌, ◌<◌}
use mathlib.Core.Path.{◌≡◌, refl, ap}
use mathlib.Core.Bool.{Bool, true, false}
use native.Mathlib.Omega.{arith}
use rg_agent_engine.Base.Tests.{ltb, leb, if◌then◌else◌}

-- `negsuc n` is -(n + 1).
pub data ℤ : Type 0 where
  pos : ℕ → ℤ
  negsuc : ℕ → ℤ

abbrev pub pos_part : ℤ → ℕ
pos_part (pos n) = n
pos_part (negsuc n) = 0

abbrev pub neg_part : ℤ → ℕ
neg_part (pos n) = 0
neg_part (negsuc n) = suc n

abbrev pub sub_ℕ : ℕ → ℕ → ℤ
sub_ℕ a b = if leb b a then pos (a - b) else negsuc (b - a - 1)

infixl 65 ◌+ℤ◌ ◌-ℤ◌
infix 50 ◌≤ℤ◌ ◌<ℤ◌
unfoldable pub ◌+ℤ◌ : ℤ → ℤ → ℤ
a +ℤ b = sub_ℕ (pos_part a + pos_part b) (neg_part a + neg_part b)

unfoldable pub ◌-ℤ◌ : ℤ → ℤ → ℤ
a -ℤ b = sub_ℕ (pos_part a + neg_part b) (neg_part a + pos_part b)

abbrev pub ◌≤ℤ◌ : ℤ → ℤ → Type 0
a ≤ℤ b = pos_part a + neg_part b ≤ pos_part b + neg_part a

abbrev pub ◌<ℤ◌ : ℤ → ℤ → Type 0
a <ℤ b = pos_part a + neg_part b < pos_part b + neg_part a

abbrev pub ltb_ℤ : ℤ → ℤ → Bool
ltb_ℤ a b = ltb (pos_part a + neg_part b) (pos_part b + neg_part a)

-- `max(0, a)`
abbrev pub max_zero : ℤ → ℤ
max_zero a = if ltb_ℤ (pos 0) a then a else pos 0

-- With these the operations can stay shut.
pub +ℤ_parts :
    (a b : ℤ)
    → pos_part (a +ℤ b) + neg_part a + neg_part b ≡ neg_part (a +ℤ b) + pos_part a + pos_part b
unfolding ◌+ℤ◌
+ℤ_parts a b = ground arith

pub -ℤ_parts :
    (a b : ℤ)
    → pos_part (a -ℤ b) + neg_part a + pos_part b ≡ neg_part (a -ℤ b) + pos_part a + neg_part b
unfolding ◌-ℤ◌
-ℤ_parts a b = ground arith

pub eq_of_parts : (a b : ℤ) → pos_part a + neg_part b ≡ pos_part b + neg_part a → a ≡ b
eq_of_parts a b h = ground arith

pub ruleset int_laws = (arith, +ℤ_parts, -ℤ_parts, eq_of_parts)

-- A limit: a float that is `float('inf')` or a number.
pub data Limit : Type 0 where
  infinite : Limit
  finite : ℤ → Limit

-- `amount > limit`
abbrev pub exceeds : ℤ → Limit → Bool
exceeds amount infinite = false
exceeds amount (finite l) = ltb_ℤ l amount

abbrev pub Within : ℤ → Limit → Type 0
Within amount infinite = Unit
Within amount (finite l) = amount ≤ℤ l

-- `min(a, b)`, which returns the first where both are equal
abbrev pub min_limit : Limit → Limit → Limit
min_limit infinite b = b
min_limit (finite a) infinite = finite a
min_limit (finite a) (finite b) = if ltb_ℤ b a then finite b else finite a

pub exceeds-false : (a : ℤ) (l : Limit) → exceeds a l ≡ false → Within a l
exceeds-false a infinite h = tt
exceeds-false a (finite l) h = ground arith

pub Within-exceeds : (a : ℤ) (l : Limit) → Within a l → exceeds a l ≡ false
Within-exceeds a infinite h = ground arith
Within-exceeds a (finite l) h = ground arith

pub Within-min_limit : (a : ℤ) (k l : Limit) → Within a (min_limit k l) → Within a k × Within a l
Within-min_limit a infinite l h = (tt, h)
Within-min_limit a (finite k) infinite h = (h, tt)
Within-min_limit a (finite k) (finite l) h = ground arith

pub Within-if :
    (b : Bool) (x y : ℤ) (l : Limit)
    → (b ≡ true → Within x l)
    → (b ≡ false → Within y l)
    → Within (if b then x else y) l
Within-if true x y l hx hy = hx refl
Within-if false x y l hx hy = hy refl

-- `max(0, limit - amount)`
abbrev pub left_under : Limit → ℤ → Limit
left_under infinite amount = infinite
left_under (finite limit) amount = finite (max_zero (limit -ℤ amount))

-- `omega` reads an equation between integers through their parts.
pub cancel_right : (x y a b : ℤ) → x +ℤ a ≡ y +ℤ b → a ≡ b → x ≡ y
cancel_right x y a b h e =
    omega (int_laws, ap pos_part h, ap neg_part h, ap pos_part e, ap neg_part e)

pub cancel_taken : (x y a b c : ℤ) → x +ℤ a ≡ y +ℤ b → b ≡ a -ℤ c → x ≡ y -ℤ c
cancel_taken x y a b c h e =
    omega (int_laws, ap pos_part h, ap neg_part h, ap pos_part e, ap neg_part e)

pub cancel_given : (x y a b c : ℤ) → x +ℤ a ≡ y +ℤ b → b ≡ a +ℤ c → x ≡ y +ℤ c
cancel_given x y a b c h e =
    omega (int_laws, ap pos_part h, ap neg_part h, ap pos_part e, ap neg_part e)

pub take_give : (x c : ℤ) → x -ℤ c +ℤ c ≡ x
take_give x c = omega int_laws
