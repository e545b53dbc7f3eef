-- ===== src/Fs/Bitmap/Claim.antt =====
-- Which bit `new_block` and `new_inode` take, and that `free_block` gives it back.
use linux.Base.{
  ℕ, ◌+◌, ◌-◌, ◌*◌, ◌/◌, ◌%◌, ◌≤◌, ◌<◌, ◌≡◌, ◌≢◌, inl, inr, refl, sym, ◌∙◌, ap, arith, ltb, leb,
  ◌==◌, not, ◌&&◌, Bool, true, false, Bool-cases, Option, none, some, returns, Returns,
}
use native.Mathlib.Decide.{ℕ_discrete}
use linux.Base.Loops.{find_up_passes, find_up_least}
use linux.Fs.Buffer.{BufferHead, Cache, with_head}
use linux.Fs.Structs.{SuperBlock}
use linux.Fs.Bitmap.{
  test_bit, put_bit, set_bit, clear_bit, find_first_zero, find_map, set_data, claim_bit, clear_zone,
}
use linux.Fs.Bitmap.Bit.{test_bit-put_self, test_bit-put_other}

-- The bit with the number `n` in all the maps.
abbrev pub map_bit : (ℕ → ℕ) → Cache → ℕ → Bool
map_bit maps c n = test_bit (n % 8192) (c.head (maps (n / 8192))).b_data

-- The bit `n` was clear and is set, the lowest of its kind; nothing else has changed.
pub record IsClaimed (maps : ℕ → ℕ) (c : Cache) (n : ℕ) (c' : Cache) : Type 0 where
  pub in_range : n < 8 * 8192
  pub has_map : maps (n / 8192) ≢ 0
  pub was_clear : map_bit maps c n ≡ false
  pub is_set : map_bit maps c' n ≡ true
  pub lowest : (m : ℕ) → m < n → maps (m / 8192) ≢ 0 → map_bit maps c m ≡ true
  pub other_bits :
      (k : ℕ)
      → k ≢ n % 8192
      → test_bit k (c'.head (maps (n / 8192))).b_data ≡ test_bit k (c.head (maps (n / 8192))).b_data
  pub other_heads : (p : ℕ) → p ≢ maps (n / 8192) → c'.head p ≡ c.head p

-- All bits of the maps that there are were set, and nothing has changed.
abbrev pub Claims : (ℕ → ℕ) → Cache → Option ℕ × Cache → Type 0
Claims maps c (none, c') =
    (c' ≡ c) × ((m : ℕ) → m < 8 * 8192 → maps (m / 8192) ≢ 0 → map_bit maps c m ≡ true)
Claims maps c (some n, c') = IsClaimed maps c n c'

-- What the loop asks of map `i`.
abbrev has_room : (ℕ → ℕ) → Cache → ℕ → Bool
has_room maps c i = not (maps i == 0) && ltb (find_first_zero (c.head (maps i)).b_data) 8192

full_map :
    (maps : ℕ → ℕ) (c : Cache) (i k : ℕ)
    → maps i ≢ 0
    → has_room maps c i ≡ false
    → k < 8192
    → test_bit k (c.head (maps i)).b_data ≡ true
unfolding find_first_zero
full_map maps c i k m f l = ground (
  arith,
  find_up_least 0 8192 k (λ nr. not (test_bit nr (c.head (maps i)).b_data)) (omega arith)
      (ground arith),
)

below_zero : (bits : ℕ → ℕ) (k : ℕ) → k < find_first_zero bits → test_bit k bits ≡ true
unfolding find_first_zero
below_zero bits k l =
    ground (arith, find_up_least 0 8192 k (λ nr. not (test_bit nr bits)) (omega arith) l)

at_zero :
    (bits : ℕ → ℕ) → find_first_zero bits < 8192 → test_bit (find_first_zero bits) bits ≡ false
unfolding find_first_zero
at_zero bits l = ground (arith, find_up_passes 0 8192 (λ nr. not (test_bit nr bits)) l)

Claims-none : (maps : ℕ → ℕ) (c : Cache) → 8 ≤ find_map maps c → Claims maps c (none, c)
unfolding find_map
Claims-none maps c full = (
  refl,
  λ m l h.
      full_map maps c (m / 8192) (m % 8192) h
        (find_up_least 0 8 (m / 8192) (has_room maps c) (omega arith) (omega arith)) (omega arith),
)

abbrev bits_of : (ℕ → ℕ) → Cache → ℕ → ℕ → ℕ
bits_of maps c i = (c.head (maps i)).b_data

abbrev with_bit : (ℕ → ℕ) → (i j : ℕ) → Bool → Cache → Cache
with_bit maps i j b c = with_head (maps i) (set_data (put_bit j b (bits_of maps c i))) c

lowest_of :
    (maps : ℕ → ℕ) (c : Cache) (i j m : ℕ)
    → ((k : ℕ) → k < j → test_bit k (bits_of maps c i) ≡ true)
    → ((k : ℕ) → k < i → has_room maps c k ≡ false)
    → m < j + i * 8192
    → j < 8192
    → maps (m / 8192) ≢ 0
    → map_bit maps c m ≡ true
lowest_of maps c i j m low full l b h = elim (ℕ_discrete (m / 8192) i) [
  | yes e ↦ rw e (low (m % 8192) (omega (arith, e)))
  | no ne ↦ full_map maps c (m / 8192) (m % 8192) h (full (m / 8192) (omega arith)) (omega arith)
]

claimed :
    (maps : ℕ → ℕ) (c : Cache) (i j : ℕ)
    → i < 8
    → j < 8192
    → maps i ≢ 0
    → test_bit j (bits_of maps c i) ≡ false
    → ((k : ℕ) → k < j → test_bit k (bits_of maps c i) ≡ true)
    → ((k : ℕ) → k < i → has_room maps c k ≡ false)
    → IsClaimed maps c (j + i * 8192) (with_bit maps i j true c)
claimed maps c i j li lj h clear low full =
    let q : (j + i * 8192) / 8192 ≡ i = omega arith in
    let r : (j + i * 8192) % 8192 ≡ j = omega arith in
    let here : (with_bit maps i j true c).head (maps i)
        ≡ set_data (put_bit j true (bits_of maps c i)) (c.head (maps i)) =
      ground arith in
    record {
      in_range = omega arith;
      has_map = rw q h;
      was_clear = rw (q, r) clear;
      is_set = rw (q, r, here) (test_bit-put_self j true (bits_of maps c i));
      lowest = λ m l hm. lowest_of maps c i j m low full l lj hm;
      other_bits = λ k ne.
          rw (q, here) (test_bit-put_other k j true (bits_of maps c i) (λ e. ne (e ∙ sym r)));
      other_heads = λ p ne. let ne' : p ≢ maps i = λ e. ne (e ∙ ap maps (sym q)) in ground arith;
    }

claim_bit-full :
    (maps : ℕ → ℕ) (c : Cache) → 8 ≤ find_map maps c → claim_bit maps c ≡ returns (none, c)
unfolding claim_bit
claim_bit-full maps c h = ground arith

claim_bit-room :
    (maps : ℕ → ℕ) (c : Cache)
    → let i = find_map maps c in
      let j = find_first_zero (bits_of maps c i) in
      i < 8
      → test_bit j (bits_of maps c i) ≡ false
      → claim_bit maps c ≡ returns (some (j + i * 8192), with_bit maps i j true c)
unfolding claim_bit set_bit
claim_bit-room maps c l h = ground arith

map_has_room :
    (maps : ℕ → ℕ) (c : Cache) → find_map maps c < 8 → has_room maps c (find_map maps c) ≡ true
unfolding find_map
map_has_room maps c l = find_up_passes 0 8 (has_room maps c) l

maps_before : (maps : ℕ → ℕ) (c : Cache) (k : ℕ) → k < find_map maps c → has_room maps c k ≡ false
unfolding find_map
maps_before maps c k l = find_up_least 0 8 k (has_room maps c) (omega arith) l

room_there :
    (maps : ℕ → ℕ) (c : Cache) (i : ℕ)
    → has_room maps c i ≡ true
    → (maps i ≢ 0) × (find_first_zero (bits_of maps c i) < 8192)
room_there maps c i h = ((λ z. ground arith), ground arith)

-- The part of `new_block` that takes a bit, over eight maps: it does not panic; it sets the lowest bit that is clear in the maps that there are, and no other bit, and gives the
-- bit's number; only if all bits of these maps are set it changes nothing and gives none.
pub claim_bit-Claims : (maps : ℕ → ℕ) (c : Cache) → Returns (Claims maps c) (claim_bit maps c)
claim_bit-Claims maps c = elim (Bool-cases (leb 8 (find_map maps c))) [
  | inl full ↦
      let l : 8 ≤ find_map maps c = ground arith in
      rw (claim_bit-full maps c l) (Claims-none maps c l)
  | inr room ↦
      let i = find_map maps c in
      let l : i < 8 = ground arith in
      let (h, lj) = room_there maps c i (map_has_room maps c l) in
      let clear = at_zero (bits_of maps c i) lj in
      rw (claim_bit-room maps c l clear) (
        claimed maps c i (find_first_zero (bits_of maps c i)) l lj h clear
          (below_zero (bits_of maps c i)) (maps_before maps c))
]

clear_zone-bit :
    (sb : SuperBlock) (n block : ℕ) (c : Cache)
    → block + 1 ≡ n + sb.s_firstdatazone
    → map_bit sb.s_zmap c n ≡ true
    → clear_zone sb block c ≡ returns (with_bit sb.s_zmap (n / 8192) (n % 8192) false c)
unfolding clear_zone clear_bit
clear_zone-bit sb n block c e h =
    let nr : block + 1 - sb.s_firstdatazone ≡ n = omega arith in rw nr (rw h refl)

-- What is cleared in the maps `c'` that are `c` with one bit set.
cleared_back :
    (maps : ℕ → ℕ) (n p k : ℕ) (c c' : Cache)
    → IsClaimed maps c n c'
    → test_bit k ((with_bit maps (n / 8192) (n % 8192) false c').head p).b_data
      ≡ test_bit k (c.head p).b_data
cleared_back maps n p k c c' d = elim (ℕ_discrete p (maps (n / 8192))) [
  | yes is ↦
      let here : (with_bit maps (n / 8192) (n % 8192) false c').head (maps (n / 8192))
          ≡ set_data (put_bit (n % 8192) false (bits_of maps c' (n / 8192)))
              (c'.head (maps (n / 8192))) =
        ground arith in
      elim (ℕ_discrete k (n % 8192)) [
        | yes ks ↦
            rw (is, ks, here)
              (test_bit-put_self (n % 8192) false (bits_of maps c' (n / 8192)) ∙ sym d.was_clear)
        | no nk ↦
            rw (is, here)
              (test_bit-put_other k (n % 8192) false (bits_of maps c' (n / 8192)) nk
                ∙ d.other_bits k nk)
      ]
  | no other ↦
      let there : (with_bit maps (n / 8192) (n % 8192) false c').head p ≡ c'.head p =
        ground arith in
      ap (λ (b : BufferHead). test_bit k b.b_data) (there ∙ d.other_heads p other)
]

-- A bit that the search of `new_block` has set is cleared again by the last step of `free_block`, for
-- the zone of that bit: this step does not panic, and every bit of every block of the cache is then as
-- it was before both.
pub clear_zone-claim_bit :
    (sb : SuperBlock) (n block : ℕ) (c c' : Cache)
    → claim_bit sb.s_zmap c ≡ returns (some n, c')
    → block + 1 ≡ n + sb.s_firstdatazone
    → Returns
        (λ c''. (p k : ℕ) → test_bit k (c''.head p).b_data ≡ test_bit k (c.head p).b_data)
        (clear_zone sb block c')
clear_zone-claim_bit sb n block c c' e b =
    let d : IsClaimed sb.s_zmap c n c' = rw e at (claim_bit-Claims sb.s_zmap c) in
    rw (clear_zone-bit sb n block c' b d.is_set) (λ p k. cleared_back sb.s_zmap n p k c c' d)
