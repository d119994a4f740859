-- ===== src/Crypto/ZeroBits.antt =====
-- `leading_zero_bits` against the number that a digest stands for: the test of `pow_valid` is the
-- comparison with a power of two.
use egg_project.Prelude.{
  ℕ, zero, suc, ◌+◌, ◌-◌, ◌*◌, ◌^◌, ◌<◌, ◌≤◌, ◌≡◌, refl, ◌↔◌, ◌≢◌, true, [], ◌∷◌, length, All,
  leb→le, le→leb, arith,
}
use egg_project.Bytes.{Bytes, IsByte, from_be_bytes, from_be_bytes_cons, from_be_bytes-lt}
use egg_project.Types.{BlockHeader}
use egg_project.Crypto.Hashing.{
  Blake3, leading_zeros, leading_zero_bits_loop, leading_zero_bits, header_id, pow_valid,
  header_id-IsHash,
}
use native.Mathlib.Decide.{ℕ_discrete, dec_lt}
use native.Mathlib.Nat.{pow-zero, pow-suc, pow-le-pow_right, zero-add, suc-add}

pow_add : (b m n : ℕ) → b ^ (m + n) ≡ b ^ m * b ^ n
pow_add b zero n = simp (zero-add, pow-zero) (omega arith)
pow_add b (suc m) n = rw (suc-add m n, pow-suc b (m + n), pow-suc b m, pow_add b m n) (omega arith)

pow-256 : (m : ℕ) → 256 ^ m ≡ 2 ^ (8 * m)
pow-256 zero = refl
pow-256 (suc m) =
    let e : 8 * suc m ≡ 8 * m + 8 = omega arith in
    rw (e, pow-suc 256 m, pow_add 2 (8 * m) 8, pow-256 m)

-- The loop from `count` adds `count` to what it counts from 0.
loop_count :
    (count : ℕ) (bs : Bytes) → leading_zero_bits_loop count bs ≡ count + leading_zero_bits_loop 0 bs
unfolding leading_zero_bits_loop
loop_count count [] = omega arith
loop_count count (b ∷ bs) = ground (arith, loop_count (count + 8) bs, loop_count 8 bs)

-- One byte: at least `k` zero bits exactly when it lies below 2 ^ (8 - k).
byte_zeros : (b k : ℕ) → b < 256 → k ≤ 8 → (k ≤ leading_zeros b) ↔ (b < 2 ^ (8 - k))
unfolding leading_zeros
byte_zeros b zero hb hk = ground arith
byte_zeros b (suc zero) hb hk = ground arith
byte_zeros b (suc (suc zero)) hb hk = ground arith
byte_zeros b (suc (suc (suc zero))) hb hk = ground arith
byte_zeros b (suc (suc (suc (suc zero)))) hb hk = ground arith
byte_zeros b (suc (suc (suc (suc (suc zero))))) hb hk = ground arith
byte_zeros b (suc (suc (suc (suc (suc (suc zero)))))) hb hk = ground arith
byte_zeros b (suc (suc (suc (suc (suc (suc (suc zero))))))) hb hk = ground arith
byte_zeros b (suc (suc (suc (suc (suc (suc (suc (suc k)))))))) hb hk =
    let e : k ≡ 0 = omega arith in rw e (ground arith)

leading_zeros_bounds : (b : ℕ) → (leading_zeros b ≤ 8) × (b ≢ 0 → leading_zeros b ≤ 7)
unfolding leading_zeros
leading_zeros_bounds b = ground arith

-- Comparing a number in base `p` with a multiple of `p`.
digit_compare : (b v p q : ℕ) → v < p → (b < q) ↔ (b * p + v < q * p)
digit_compare b v p q h = (λ k. grind arith, λ k. grind arith)

abbrev zeros : Bytes → ℕ
zeros = leading_zero_bits_loop 0

zeros_cons_zero : (bs : Bytes) → zeros (0 ∷ bs) ≡ 8 + zeros bs
unfolding leading_zero_bits_loop
zeros_cons_zero bs = loop_count 8 bs

zeros_cons : (b : ℕ) (bs : Bytes) → b ≢ 0 → zeros (b ∷ bs) ≡ leading_zeros b
unfolding leading_zero_bits_loop
zeros_cons b bs h = ground arith

-- With `k` at most 8 only the first byte counts.
first_byte : (b k : ℕ) (bs : Bytes) → k ≤ 8 → (k ≤ zeros (b ∷ bs)) ↔ (k ≤ leading_zeros b)
first_byte b k bs le = elim (ℕ_discrete b 0) [
  | yes e ↦ rw (e, zeros_cons_zero) (unfold leading_zeros in ground arith)
  | no ne ↦ rw (zeros_cons b bs ne) (ground arith)
]

power_low : (m k : ℕ) → k ≤ 8 → 2 ^ (8 * suc m - k) ≡ 2 ^ (8 - k) * 256 ^ m
power_low m k le = let e : 8 * suc m - k ≡ (8 - k) + 8 * m = omega arith in rw (e, pow_add, pow-256)

low_bound :
    (b k : ℕ) (bs : Bytes)
    → All IsByte (b ∷ bs)
    → k ≤ 8
    → (k ≤ zeros (b ∷ bs)) ↔ (from_be_bytes (b ∷ bs) < 2 ^ (8 * suc (length bs) - k))
low_bound b k bs (hb, hbs) le =
    let first = first_byte b k bs le in
    let byte = byte_zeros b k hb le in
    let digit =
      digit_compare b (from_be_bytes bs) (256 ^ length bs) (2 ^ (8 - k))
        (from_be_bytes-lt bs hbs) in
    rw (from_be_bytes_cons, power_low (length bs) k le)
      (λ h. digit.0 (byte.0 (first.0 h)), λ h. first.1 (byte.1 (digit.1 h)))

power_high : (m k : ℕ) → 8 < k → 2 ^ (8 * suc m - k) ≤ 256 ^ m
power_high m k h =
    rw pow-256
      (pow-le-pow_right {n = 2} (omega arith) {i = 8 * suc m - k} {j = 8 * m} (omega arith))

high_bound :
    (b k : ℕ) (bs : Bytes)
    → 8 < k
    → b ≢ 0
    → ¬ (from_be_bytes (b ∷ bs) < 2 ^ (8 * suc (length bs) - k))
high_bound b k bs h nz =
    let q : 256 ^ length bs ≤ b * 256 ^ length bs = one_le_mul b _ (omega arith) in
    rw from_be_bytes_cons (omega (arith, power_high (length bs) k h, q))
  where
    one_le_mul : (b p : ℕ) → 0 < b → p ≤ b * p
    one_le_mul b p h = grind arith

-- A byte string begins with `k` zero bits exactly when its number has `k` bits less.
pub zeros-lt :
    (bs : Bytes) (k : ℕ)
    → All IsByte bs
    → k ≤ 8 * length bs
    → (k ≤ zeros bs) ↔ (from_be_bytes bs < 2 ^ (8 * length bs - k))
zeros-lt [] k h le = unfold from_be_bytes leading_zero_bits_loop in ground arith
zeros-lt (b ∷ bs) k (hb, hbs) le =
    step b k bs hb hbs (dec_lt 8 k) (ℕ_discrete b 0) (λ h. zeros-lt bs (k - 8) hbs (omega arith))
  where
    step :
        (b k : ℕ) (bs : Bytes)
        → IsByte b
        → All IsByte bs
        → Dec (8 < k)
        → Dec (b ≡ 0)
        → (8 < k → (k - 8 ≤ zeros bs) ↔ (from_be_bytes bs < 2 ^ (8 * length bs - (k - 8))))
        → (k ≤ zeros (b ∷ bs)) ↔ (from_be_bytes (b ∷ bs) < 2 ^ (8 * suc (length bs) - k))
    step b k bs hb hbs (no low) d ih = low_bound b k bs (hb, hbs) (omega arith)
    step b k bs hb hbs (yes h) (no nz) ih = (
      λ z. absurd (omega (arith, zeros_cons b bs nz, (leading_zeros_bounds b).1 nz)),
      λ z. absurd (high_bound b k bs h nz z),
    )
    step b k bs hb hbs (yes h) (yes e) ih =
        let same : 8 * suc (length bs) - k ≡ 8 * length bs - (k - 8) = omega arith in
        rw (e, zeros_cons_zero, from_be_bytes_cons, same)
          (λ z. omega (arith, (ih h).0 (omega arith)), λ z. omega (arith, (ih h).1 (omega arith)))

-- For a difficulty of at most 256 bits, proof of work is valid exactly when the header's id, read
-- as a 256-bit number, lies below 2 ^ (256 - bits).
pub pow_valid-target :
    (b3 : Blake3) (h : BlockHeader)
    → h.pow_difficulty_bits ≤ 256
    → (pow_valid b3 h ≡ true) ↔ (from_be_bytes (header_id b3 h) < 2 ^ (256 - h.pow_difficulty_bits))
unfolding pow_valid leading_zero_bits
pow_valid-target b3 h le =
    let v = header_id-IsHash b3 h in
    let both = zeros-lt (header_id b3 h) h.pow_difficulty_bits v.bytes (omega (arith, v.len)) in
    let bits = rw v.len at both in (λ z. bits.0 (leb→le _ _ z), λ z. le→leb _ _ (bits.1 z))
