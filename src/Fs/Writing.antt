-- ===== src/Fs/Writing.antt =====
-- Bytes that a read puts into a buffer.
use neo_init_ware.Common.{
  ℕ, zero, suc, ◌+◌, ◌<◌, ◌≤◌, ◌≡◌, >>=-runs, ap, refl, List, [], ◌∷◌, ok, length, get_elem?, arith,
}
use neo_init_ware.Fs.{put_bytes}

-- The bytes stand in the buffer from `at` on, and nothing else in it has changed.
pub record Written (at : ℕ) (bytes buffer after : List ℕ) : Type 0 where
  pub same_length : length after ≡ length buffer
  pub before : (i : ℕ) → i < at → get_elem? after i ≡ get_elem? buffer i
  pub within : (i : ℕ) → i < length bytes → get_elem? after (at + i) ≡ get_elem? bytes i
  pub behind : (i : ℕ) → at + length bytes ≤ i → get_elem? after i ≡ get_elem? buffer i

agree_behind :
    (n x y : ℕ) (xs ys : List ℕ)
    → ((i : ℕ) → n ≤ i → get_elem? xs i ≡ get_elem? ys i)
    → (i : ℕ) → suc n ≤ i
    → get_elem? (x ∷ xs) i ≡ get_elem? (y ∷ ys) i
agree_behind n x y xs ys h zero large = absurd (omega (arith, large))
agree_behind n x y xs ys h (suc i) large = h i (omega (arith, large))

agree_before :
    (n x : ℕ) (xs ys : List ℕ)
    → ((i : ℕ) → i < n → get_elem? xs i ≡ get_elem? ys i)
    → (i : ℕ) → i < suc n
    → get_elem? (x ∷ xs) i ≡ get_elem? (x ∷ ys) i
agree_before n x xs ys h zero small = refl
agree_before n x xs ys h (suc i) small = h i (omega (arith, small))

nothing-Written : (at : ℕ) (buffer : List ℕ) → Written at [] buffer buffer
nothing-Written at buffer = record {
  same_length = refl;
  before = λ i h. refl;
  within = λ i h. absurd (omega (arith, h));
  behind = λ i h. refl;
}

first-Written :
    (b x : ℕ) (bs xs rest : List ℕ) → Written 0 bs xs rest → Written 0 (b ∷ bs) (x ∷ xs) (b ∷ rest)
first-Written b x bs xs rest w = record {
  same_length = ap suc w.same_length;
  before = λ i h. absurd (omega (arith, h));
  within = λ i h. shifted i h;
  behind = λ i h.
      agree_behind (length bs) b x rest xs (λ k large. w.behind k (omega (arith, large))) i
        (omega (arith, h));
}
  where
    shifted : (i : ℕ) → i < length (b ∷ bs) → get_elem? (b ∷ rest) (0 + i) ≡ get_elem? (b ∷ bs) i
    shifted zero small = refl
    shifted (suc i) small =
        let e : 0 + suc i ≡ suc (0 + i) = omega arith in rw e (w.within i (omega (arith, small)))

later-Written :
    (at x : ℕ) (bytes xs rest : List ℕ)
    → Written at bytes xs rest
    → Written (suc at) bytes (x ∷ xs) (x ∷ rest)
later-Written at x bytes xs rest w = record {
  same_length = ap suc w.same_length;
  before = agree_before at x rest xs w.before;
  within = λ i h. let e : suc at + i ≡ suc (at + i) = omega arith in rw e (w.within i h);
  behind = λ i h. agree_behind (at + length bytes) x x rest xs w.behind i (omega (arith, h));
}

pub put_bytes-Written :
    (at : ℕ) (bytes buffer : List ℕ)
    → at + length bytes ≤ length buffer
    → (after : List ℕ) × (put_bytes at bytes buffer ≡ ok after) × Written at bytes buffer after
unfolding put_bytes
put_bytes-Written at [] buffer fits = (buffer, refl, nothing-Written at buffer)
put_bytes-Written zero (b ∷ bs) [] fits = absurd (omega (arith, fits))
put_bytes-Written (suc at) (b ∷ bs) [] fits = absurd (omega (arith, fits))
put_bytes-Written zero (b ∷ bs) (x ∷ xs) fits =
    let (rest, runs, w) = put_bytes-Written zero bs xs (omega (arith, fits)) in
    (b ∷ rest, >>=-runs (put_bytes zero bs xs) _ runs refl, first-Written b x bs xs rest w)
put_bytes-Written (suc at) (b ∷ bs) (x ∷ xs) fits =
    let (rest, runs, w) = put_bytes-Written at (b ∷ bs) xs (omega (arith, fits)) in
    (
      x ∷ rest,
      >>=-runs (put_bytes at (b ∷ bs) xs) _ runs refl,
      later-Written at x (b ∷ bs) xs rest w,
    )
