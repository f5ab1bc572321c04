-- ===== src/Wire/Room.antt =====
-- The loop of `fast_ostream::encode` and the byte that it puts in front leave `i` at 0 or more.
use m_fast.Common.{
  ℕ, zero, suc, ◌+◌, ◌-◌, ◌*◌, ◌/◌, ◌%◌, ◌^◌, ◌≤◌, ◌<◌, ◌≡◌, ◌≢◌, refl, sym, ◌∙◌, subst, Bool, true,
  false, List, [], ◌∷◌, inl, inr, Bool-cases, ◌==◌, if-elim, length, arith,
}
use m_fast.Wire.IntType.{
  IntType, int16, int32, uint32, int64, uint64, modulus, is_signed, is_positive, InRange,
}
use m_fast.Wire.Istream.{has_sign}
use m_fast.Wire.Ostream.{
  shift_right, encode_groups, pad_sign, encode_value, max_encoded_length, padding_mask,
  no_significant_bits, gt_zero, head_byte,
}
use m_fast.Wire.StringRoundTrip.{length-set_stop}
use native.Mathlib.Nat.{pow-suc}
use mathlib.Core.Bool.{true≢false}

-- At most `n` bytes, and one less where the sign of the first is `sign`, so that a byte goes in front.
abbrev Room : Bool → ℕ → List ℕ → Type 0
Room sign n g = (length g ≤ n) × (has_sign (head_byte g) ≡ sign → length g + 1 ≤ n)

Room-positive :
    (i v : ℕ) (buffer : List ℕ)
    → v < 64 * 128 ^ i
    → Room true (suc i + length buffer) (encode_groups (suc i) 0 0 v buffer)
unfolding encode_groups
Room-positive zero v buffer h =
    if-elim (Room true (1 + length buffer)) (v == 0) _ _ (λ _. (omega arith, λ _. omega arith))
      (λ _. (omega arith, λ s. absurd (ground (arith, h, s))))
Room-positive (suc i) v buffer h =
    if-elim (Room true (suc (suc i) + length buffer)) (v == 0) _ _
      (λ _. (omega arith, λ _. omega arith))
      (λ _.
        subst (λ n. Room true n (encode_groups (suc i) 0 0 (shift_right 0 v) ((v % 128) ∷ buffer)))
          (omega arith)
          (Room-positive i (shift_right 0 v) ((v % 128) ∷ buffer)
            (omega (arith, h, pow-suc 128 i))))

sign_round :
    (ty : IntType) (v : ℕ)
    → is_signed ty ≡ true
    → InRange ty v
    → InRange ty (shift_right (padding_mask ty false) v)
      × (modulus ty - 1 - shift_right (padding_mask ty false) v ≤ (modulus ty - 1 - v) / 128)
      × (modulus ty - 1 - v < 64 → has_sign (v % 128) ≡ true)
sign_round int16 v s h = (omega arith, omega arith, λ k. ground (arith, k))
sign_round int32 v s h = (omega arith, omega arith, λ k. ground (arith, k))
sign_round uint32 v s h = cc
sign_round int64 v s h = (omega arith, omega arith, λ k. ground (arith, k))
sign_round uint64 v s h = cc

Room-negative :
    (ty : IntType) (i v : ℕ) (buffer : List ℕ)
    → is_signed ty ≡ true
    → InRange ty v
    → modulus ty - 1 - v < 64 * 128 ^ i
    → Room false
        (suc i + length buffer)
        (encode_groups (suc i) (padding_mask ty false) (modulus ty - 1) v buffer)
unfolding encode_groups
Room-negative ty zero v buffer s r h =
    if-elim (Room false (1 + length buffer)) (v == modulus ty - 1) _ _
      (λ _. (omega arith, λ _. omega arith))
      (λ _. (
        omega arith,
        λ f. absurd (true≢false (sym ((sign_round ty v s r).2 (omega (arith, h))) ∙ f)),
      ))
Room-negative ty (suc i) v buffer s r h =
    let (range, less, _) = sign_round ty v s r in
    let v' = shift_right (padding_mask ty false) v in
    if-elim (Room false (suc (suc i) + length buffer)) (v == modulus ty - 1) _ _
      (λ _. (omega arith, λ _. omega arith))
      (λ _.
        subst
          (λ n. Room false n (
            encode_groups (suc i) (padding_mask ty false) (modulus ty - 1) v' ((v % 128) ∷ buffer)))
          (omega arith)
          (Room-negative ty i v' ((v % 128) ∷ buffer) s range
            (omega (arith, h, less, pow-suc 128 i))))

-- The loop, from the value that `encode` hands to it.
loop_positive :
    (ty : IntType) (v : ℕ)
    → InRange ty v
    → (is_signed ty ≡ true → is_positive ty v ≡ true)
    → let g = encode_groups (max_encoded_length ty) 0 0 v [] in
      (length g ≤ max_encoded_length ty)
      × (is_signed ty ≡ true → Room true (max_encoded_length ty) g)
loop_positive int16 v h p = let r = Room-positive 2 v [] (ground (arith, h)) in (r.0, λ _. r)
loop_positive int32 v h p = let r = Room-positive 4 v [] (ground (arith, h)) in (r.0, λ _. r)
loop_positive uint32 v h p = let r = Room-positive 4 v [] (ground (arith, h)) in (r.0, λ _. r)
loop_positive int64 v h p = let r = Room-positive 9 v [] (ground (arith, h)) in (r.0, λ _. r)
loop_positive uint64 v h p = let r = Room-positive 9 v [] (ground (arith, h)) in (r.0, λ _. r)

loop_negative :
    (ty : IntType) (v : ℕ)
    → InRange ty v
    → is_positive ty v ≡ false
    → (is_signed ty ≡ true)
      × Room false
          (max_encoded_length ty)
          (encode_groups (max_encoded_length ty) (padding_mask ty false) (modulus ty - 1) v [])
loop_negative int16 v h p = (refl, Room-negative int16 2 v [] refl h (ground (arith, h)))
loop_negative int32 v h p = (refl, Room-negative int32 4 v [] refl h (ground (arith, h)))
loop_negative uint32 v h p = cc
loop_negative int64 v h p = (refl, Room-negative int64 9 v [] refl h (ground (arith, h)))
loop_negative uint64 v h p = cc

pad_positive :
    (ty : IntType) (n : ℕ) (g : List ℕ)
    → length g ≤ n
    → (is_signed ty ≡ true → Room true n g)
    → length (pad_sign ty true g) ≤ n
unfolding pad_sign
pad_positive ty n g h r =
    if-elim (λ (b : List ℕ). length b ≤ n) (is_signed ty) _ _
      (λ s.
        if-elim (λ (b : List ℕ). length b ≤ n) (has_sign (head_byte g)) (0x00 ∷ g) g
          (λ e. omega (arith, (r s).1 e)) (λ _. h))
      (λ _. h)

pad_negative :
    (ty : IntType) (n : ℕ) (g : List ℕ)
    → is_signed ty ≡ true
    → Room false n g
    → length (pad_sign ty false g) ≤ n
unfolding pad_sign
pad_negative ty n g s r =
    if-elim (λ (b : List ℕ). length b ≤ n) (is_signed ty) _ _
      (λ _.
        if-elim (λ (b : List ℕ). length b ≤ n) (has_sign (head_byte g)) g (0x7F ∷ g) (λ _. r.0)
          (λ e. omega (arith, r.1 e)))
      (λ _. r.0)

-- The three uses of the sign of the value.
abbrev padded : IntType → ℕ → Bool → Bool → List ℕ
padded ty v gt positive =
    pad_sign ty positive
      (encode_groups (max_encoded_length ty) (padding_mask ty gt) (no_significant_bits ty gt) v [])

padded_within :
    (ty : IntType) (v : ℕ)
    → InRange ty v
    → v ≢ 0
    → length (padded ty v (gt_zero ty v) (is_positive ty v)) ≤ max_encoded_length ty
padded_within ty v h ne = elim (Bool-cases (is_positive ty v)) [
  | inl p ↦
      let gt : gt_zero ty v ≡ true = ground (arith, p, ne) in
      let l = loop_positive ty v h (λ _. p) in
      rw (gt, p) (pad_positive ty (max_encoded_length ty) _ l.0 l.1)
  | inr p ↦
      let gt : gt_zero ty v ≡ false = ground (arith, p) in
      let l = loop_negative ty v h p in
      rw (gt, p) (pad_negative ty (max_encoded_length ty) _ l.0 l.1)
]

pub length-encode_value :
    (ty : IntType) (v : ℕ)
    → InRange ty v
    → v ≢ 0
    → length (encode_value ty v) ≤ max_encoded_length ty
unfolding encode_value
length-encode_value ty v h ne =
    subst (λ n. n ≤ max_encoded_length ty)
      (sym (length-set_stop (padded ty v (gt_zero ty v) (is_positive ty v))))
      (padded_within ty v h ne)
