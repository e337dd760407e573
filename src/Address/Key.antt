-- ===== src/Address/Key.antt =====
-- `address_program_key`: what the key tells apart, and what it does not.
use sparse_branch_machine.Base.{
  ℕ, zero, suc, ◌+◌, ◌-◌, ◌*◌, ◌/◌, ◌%◌, ◌^◌, ◌≤◌, ◌<◌, ◌≡◌, ◌≢◌, ◌⊎◌, inl, inr, refl, sym, ap, ap₂,
  ◌∙◌, arith, bit_or, bit_and, List, [], ◌∷◌, get_or, length,
}
use sparse_branch_machine.Base.Bits.{high-bit_or, bit_and-ones}
use sparse_branch_machine.Base.Fields.{bit_or-fields}
use sparse_branch_machine.Address.{
  AddressOp, AddressProgram, op_value, key_loop, address_program_key, tuple, delta_mod,
  content_match, content_follow, content_follow_multi2, content_follow_multi3,
}

-- A program as `proposal_at` makes it, its lags below the given bounds.
pub record IsKeyed (p : AddressProgram) : Type 0 where
  pub lag0 : ℕ
  pub lag1 : ℕ
  pub lags : p.lags ≡ lag0 ∷ lag1 ∷ []
  pub small0 : lag0 < 2 ^ 28
  pub small1 : lag1 < 2 ^ 20
  pub shape : ((p.arity ≡ 1) × (lag1 ≡ 0)) ⊎ (p.arity ≡ 2)

top_fields :
    (a o : ℕ)
    → a < 2 ^ 8
    → o < 8
    → bit_or ((a * 2 ^ 56) % 2 ^ 64) (o * 2 ^ 48) ≡ (a * 2 ^ 8 + o) * 2 ^ 48
top_fields a o h g =
    let e : (a * 2 ^ 56) % 2 ^ 64 ≡ a * 2 ^ 56 = omega arith in
    rw e (high-bit_or 56 a (o * 2 ^ 48) (omega arith) ∙ omega arith)

-- The lag at `index` 0 fills the 28 lowest bits.
low_field :
    (t l : ℕ)
    → l < 2 ^ 28
    → bit_or (t * 2 ^ 48) ((bit_and l 0x0FFFFFFF * 2 ^ 0) % 2 ^ 64) ≡ t * 2 ^ 48 + l
low_field t l h =
    let m : bit_and l 0x0FFFFFFF ≡ l = bit_and-ones 28 l h in
    let e : (l * 1) % 2 ^ 64 ≡ l = omega arith in rw (m, e) (high-bit_or 48 t l (omega arith))

-- The lag at `index` 1 stands above them; its bits from the twentieth on meet the operation.
next_field :
    (t l m : ℕ)
    → l < 2 ^ 28
    → m < 2 ^ 28
    → bit_or (t * 2 ^ 48 + l) ((bit_and m 0x0FFFFFFF * 2 ^ 28) % 2 ^ 64)
      ≡ bit_or (t * 2 ^ 20) m * 2 ^ 28 + l
next_field t l m h g =
    let a : bit_and m 0x0FFFFFFF ≡ m = bit_and-ones 28 m g in
    let e : (m * 2 ^ 28) % 2 ^ 64 ≡ m * 2 ^ 28 + 0 = omega arith in
    let r : t * 2 ^ 48 + l ≡ t * 2 ^ 20 * 2 ^ 28 + l = omega arith in
    rw (a, e, r)
      (bit_or-fields 28 (t * 2 ^ 20) m l 0 h (omega arith)
        ∙ ap (λ (x : ℕ). bit_or (t * 2 ^ 20) m * 2 ^ 28 + x) (bit_or_self l))
  where
    bit_or_self : (l : ℕ) → bit_or l 0 ≡ l
    bit_or_self l = sparse_branch_machine.Base.Bits.bit_or-zero l

op_value-lt : (o : AddressOp) → op_value o < 8
op_value-lt tuple = omega arith
op_value-lt delta_mod = omega arith
op_value-lt content_match = omega arith
op_value-lt content_follow = omega arith
op_value-lt content_follow_multi2 = omega arith
op_value-lt content_follow_multi3 = omega arith

op_of : ℕ → AddressOp
op_of zero = tuple
op_of (suc zero) = delta_mod
op_of (suc (suc zero)) = content_match
op_of (suc (suc (suc zero))) = content_follow
op_of (suc (suc (suc (suc zero)))) = content_follow_multi2
op_of (suc (suc (suc (suc (suc n))))) = content_follow_multi3

op_of-op_value : (o : AddressOp) → op_of (op_value o) ≡ o
unfolding op_of
op_of-op_value tuple = refl
op_of-op_value delta_mod = refl
op_of-op_value content_match = refl
op_of-op_value content_follow = refl
op_of-op_value content_follow_multi2 = refl
op_of-op_value content_follow_multi3 = refl

two_lags :
    (p : AddressProgram) (l m : ℕ)
    → p.lags ≡ l ∷ m ∷ []
    → p.arity ≡ 2
    → l < 2 ^ 28
    → m < 2 ^ 28
    → address_program_key p ≡ bit_or ((2 * 2 ^ 8 + op_value p.op) * 2 ^ 20) m * 2 ^ 28 + l
unfolding address_program_key key_loop
two_lags p l m e a h g =
    rw
      (
        e,
        a,
        top_fields 2 (op_value p.op) (omega arith) (op_value-lt p.op),
        low_field (2 * 2 ^ 8 + op_value p.op) l h,
      )
      (next_field (2 * 2 ^ 8 + op_value p.op) l m h g)

-- The fields of the key of a program with small lags.
key_fields :
    (p : AddressProgram) (k : IsKeyed p)
    → address_program_key p
      ≡ ((p.arity * 2 ^ 8 + op_value p.op) * 2 ^ 20 + k.lag1) * 2 ^ 28 + k.lag0
unfolding address_program_key key_loop
key_fields p k = elim k.shape [
  | inl one ↦
      rw (k.lags, one.0, one.1, top_fields 1 (op_value p.op) (omega arith) (op_value-lt p.op))
        (low_field (1 * 2 ^ 8 + op_value p.op) k.lag0 k.small0 ∙ omega arith)
  | inr two ↦
      let field = high-bit_or 20 (2 * 2 ^ 8 + op_value p.op) k.lag1 k.small1 in
      two_lags p k.lag0 k.lag1 k.lags two k.small0 (omega (arith, k.small1)) ∙ rw (field, two) refl
]

shape-lt : (p : AddressProgram) → IsKeyed p → p.arity < 2 ^ 8
shape-lt p k = elim k.shape [ inl one ↦ omega (arith, one.0) | inr two ↦ omega (arith, two) ]

same_fields :
    (a a' o o' m m' l l' : ℕ)
    → o < 8
    → o' < 8
    → m < 2 ^ 20
    → m' < 2 ^ 20
    → l < 2 ^ 28
    → l' < 2 ^ 28
    → ((a * 2 ^ 8 + o) * 2 ^ 20 + m) * 2 ^ 28 + l ≡ ((a' * 2 ^ 8 + o') * 2 ^ 20 + m') * 2 ^ 28 + l'
    → (a ≡ a') × (o ≡ o') × (m ≡ m') × (l ≡ l')
same_fields a a' o o' m m' l l' ho ho' hm hm' hl hl' e =
    (omega arith, omega arith, omega arith, omega arith)

-- Programs of one or two lags have different keys, as long as the first lag fits 28 bits and the
-- second 20 bits.
pub address_program_key_injective :
    (p q : AddressProgram)
    → IsKeyed p
    → IsKeyed q
    → address_program_key p ≡ address_program_key q
    → p ≡ q
address_program_key_injective p q k j e =
    let (a, o, m, l) =
      same_fields p.arity q.arity (op_value p.op) (op_value q.op) k.lag1 j.lag1 k.lag0 j.lag0
        (op_value-lt p.op) (op_value-lt q.op) k.small1 j.small1 k.small0 j.small0
        (sym (key_fields p k) ∙ e ∙ key_fields q j) in
    let ops : p.op ≡ q.op = sym (op_of-op_value p.op) ∙ ap op_of o ∙ op_of-op_value q.op in
    let lags : p.lags ≡ q.lags = k.lags ∙ ap₂ (λ (x y : ℕ). x ∷ y ∷ []) l m ∙ sym j.lags in
    λ i. record { lags = lags i; arity = a i; op = ops i }

-- A second lag from 2^20 to 2^21 - 1 reaches the bits of the operation: a tuple program of two lags,
-- the first below 2^28, then has the key of the difference program with the same first lag and a
-- second lag that is 2^20 smaller, and the two are not equal.
pub address_program_key_collides :
    (p q : AddressProgram) (l m : ℕ)
    → p.lags ≡ l ∷ (m + 2 ^ 20) ∷ []
    → p.arity ≡ 2
    → p.op ≡ tuple
    → q.lags ≡ l ∷ m ∷ []
    → q.arity ≡ 2
    → q.op ≡ delta_mod
    → l < 2 ^ 28
    → m < 2 ^ 20
    → (address_program_key p ≡ address_program_key q) × (p ≢ q)
address_program_key_collides p q l m pl pa po ql qa qo h g = (
  two_lags p l (m + 2 ^ 20) pl pa h (omega arith)
      ∙ ap (λ (t : ℕ). t * 2 ^ 28 + l) inner
      ∙ sym (two_lags q l m ql qa h (omega arith)),
  λ e. different (sym po ∙ ap (λ (x : AddressProgram). x.op) e ∙ qo),
)
  where
    different : tuple ≢ delta_mod
    different e = cc

    fold : m + 2 ^ 20 ≡ 1 * 2 ^ 20 + m
    fold = omega arith

    plain : (2 * 2 ^ 8 + 1) * 2 ^ 20 + (0 * 2 ^ 20 + m) ≡ (2 * 2 ^ 8 + 1) * 2 ^ 20 + m
    plain = omega arith

    inner :
        bit_or ((2 * 2 ^ 8 + op_value p.op) * 2 ^ 20) (m + 2 ^ 20)
        ≡ bit_or ((2 * 2 ^ 8 + op_value q.op) * 2 ^ 20) m
    inner =
        rw (po, qo, fold)
          (bit_or-fields 20 (2 * 2 ^ 8) 1 0 m (omega arith) g
            ∙ ap₂ (λ (x y : ℕ). x * 2 ^ 20 + y) (high-bit_or 8 2 1 (omega arith))
                (high-bit_or 20 0 m g)
            ∙ plain
            ∙ sym (high-bit_or 20 (2 * 2 ^ 8 + 1) m g))
