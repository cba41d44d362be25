-- ===== src/Types/Varint/Laws.antt =====
-- What `unpack_variant32` returns: on any memory, and on the encoding of a number.
use ledger_app.Base.{
  ℕ, zero, suc, ◌+◌, ◌*◌, ◌/◌, ◌%◌, ◌^◌, ◌≤◌, ◌<◌, ◌≡◌, refl, ap, ◌∙◌, List, [], ◌∷◌, ◌++◌, arith,
  length, ltb, if◌then◌else◌, bit_or, ok, Bool-cases, inl, inr, u32, top_bit, ◌&&◌,
}
use ledger_app.Base.Bits.{bit_or-shifted}
use ledger_app.Types.Varint.{unpack_loop, unpack_variant32}
use native.Mathlib.Nat.{div-add-mod, mod-eq_of_lt, pow-suc}
use native.Mathlib.Decide.{dec_lt}
use mathlib.Core.Path.{ap₂}
use native.Mathlib.Numerals.{towards_suc}

unpack_loop_bounds :
    (bytes : List ℕ) (len i v by value read : ℕ)
    → by ≡ 7 * i
    → i ≤ 4
    → unpack_loop bytes len i v by ≡ ok (value, read)
    → (value < 2 ^ 32) × (i < read) × (read ≤ 5) × (read ≤ length bytes + i)
unfolding unpack_loop
unpack_loop_bounds [] len i v by value read hb hi e = cc
unpack_loop_bounds (b ∷ rest) len i v by value read hb hi e = ground (
  arith,
  unpack_loop_bounds rest len (i + 1) (bit_or v (b % 2 ^ 7 * 2 ^ by % 2 ^ 32)) (by + 7) value read,
)

unpack_loop_total :
    (bytes : List ℕ) (len i v by : ℕ)
    → by ≡ 7 * i
    → i ≤ 4
    → 5 ≤ length bytes + i
    → (p : ℕ × ℕ) × (unpack_loop bytes len i v by ≡ ok p)
unfolding unpack_loop
unpack_loop_total [] len i v by hb hi hl = absurd (omega arith)
unpack_loop_total (b ∷ rest) len i v by hb hi hl =
    elim (Bool-cases (top_bit b && (ltb (by + 7) 32 && ltb (i + 1) len))) [
      | inl more ↦
          rw more (
            unpack_loop_total rest len (i + 1) _ (by + 7) (omega arith) (ground arith)
              (omega arith))
      | inr done ↦ ((u32 (bit_or v (b % 2 ^ 7 * 2 ^ by % 2 ^ 32)), i + 1), rw done)
    ]

-- On any memory of five bytes or more `unpack_variant32` returns: a 32-bit value, from one to
-- five bytes, all inside the memory.
pub unpack_variant32_total :
    (bytes : List ℕ) (len : ℕ)
    → 5 ≤ length bytes
    → (value : ℕ) × (read : ℕ) × (unpack_variant32 bytes len ≡ ok (value, read))
      × (value < 2 ^ 32)
      × (1 ≤ read)
      × (read ≤ 5)
unfolding unpack_variant32
unpack_variant32_total bytes len h =
    let ((value, read), e) =
      unpack_loop_total bytes len 0 0 0 (omega arith) (omega arith) (omega arith) in
    let bounds = unpack_loop_bounds bytes len 0 0 0 value read (omega arith) (omega arith) e in
    (value, read, e, bounds.0, bounds.1, bounds.2)

-- The encoding of the chain's serialisation: groups of seven bits, lowest first, each but the
-- last with the top bit set. A number below 2 ^ 32 takes at most `k + 1 = 5` of them.
unfoldable pub groups : ℕ → ℕ → List ℕ
groups zero w = w ∷ []
groups (suc k) w =
    let rest = groups k (w / 128) in if ltb w 128 then w ∷ [] else (w % 128 + 128) ∷ rest

-- A group shifted into its place does not wrap, and joins what stands below it.
or_group :
    (g by v : ℕ)
    → v < 2 ^ by
    → v + g * 2 ^ by < 2 ^ 32
    → bit_or v (g * 2 ^ by % 2 ^ 32) ≡ v + g * 2 ^ by
or_group g by v hv fits =
    rw (mod-eq_of_lt {n = g * 2 ^ by} {m = 2 ^ 32} (omega arith)) (bit_or-shifted by v g hv)

place_seven : (by : ℕ) → 2 ^ (by + 7) ≡ 2 ^ by * 128
place_seven by = simp towards_suc (omega arith)

-- A number moved up by `by` bits is its lowest group there, and the others seven bits higher.
lowest_moved : (by n : ℕ) → n % 128 * 2 ^ by + n / 128 * 2 ^ (by + 7) ≡ n * 2 ^ by
lowest_moved by n =
    let others = ap (λ (p : ℕ). n / 128 * p) (place_seven by) in
    let parts = ap (λ (m : ℕ). m * 2 ^ by) (div-add-mod n 128) in omega (arith, others, parts)

-- One round on a group that is not the last, and on the last.
inner_group :
    (g len i v by : ℕ) (rest : List ℕ)
    → g < 128
    → by + 7 < 32
    → i + 1 < len
    → v < 2 ^ by
    → v + g * 2 ^ by < 2 ^ 32
    → unpack_loop ((g + 128) ∷ rest) len i v by
      ≡ unpack_loop rest len (i + 1) (v + g * 2 ^ by) (by + 7)
unfolding unpack_loop
inner_group g len i v by rest hg hb hi hv fits =
    let low : (g + 128) % 2 ^ 7 ≡ g = omega arith in
    rw (low, or_group g by v hv fits) (ground arith)

last_group :
    (g len i v by : ℕ) (rest : List ℕ)
    → g < 128
    → v < 2 ^ by
    → v + g * 2 ^ by < 2 ^ 32
    → unpack_loop (g ∷ rest) len i v by ≡ ok (v + g * 2 ^ by, i + 1)
unfolding unpack_loop
last_group g len i v by rest hg hv fits = ground (arith, or_group g by v)

groups_inner : (k w : ℕ) → 128 ≤ w → groups (suc k) w ≡ (w % 128 + 128) ∷ groups k (w / 128)
unfolding groups
groups_inner k w h = ground arith

groups_last : (k w : ℕ) → w < 128 → groups k w ≡ w ∷ []
unfolding groups
groups_last zero w h = refl
groups_last (suc k) w h = ground arith

length-groups_pos : (k w : ℕ) → 1 ≤ length (groups k w)
unfolding groups
length-groups_pos zero w = omega arith
length-groups_pos (suc k) w = ground arith

unpack_loop-groups :
    (k w len i v by : ℕ) (rest : List ℕ)
    → by + 7 * k ≡ 28
    → w < 128 ^ suc k
    → v < 2 ^ by
    → v + w * 2 ^ by < 2 ^ 32
    → i + length (groups k w) ≤ len
    → unpack_loop (groups k w ++ rest) len i v by ≡ ok (v + w * 2 ^ by, i + length (groups k w))
unpack_loop-groups zero w len i v by rest hb hw hv fits hl =
    rw (groups_last zero w (omega arith)) (last_group w len i v by rest (omega arith) hv fits)
unpack_loop-groups (suc k) w len i v by rest hb hw hv fits hl = elim (dec_lt w 128) [
  | yes small ↦ rw (groups_last (suc k) w small) (last_group w len i v by rest small hv fits)
  | no big ↦
      let e = groups_inner k w (omega arith) in
      let longer : 1 + length (groups k (w / 128)) ≡ length (groups (suc k) w) =
        rw e (omega arith) in
      let pos = length-groups_pos k (w / 128) in
      let split = lowest_moved by w in
      let seven = place_seven by in
      let small : w % 128 * 2 ^ by ≤ 127 * 2 ^ by = grind arith in
      rw e (
        inner_group (w % 128) len i v by _ (omega arith) (omega arith) (omega arith) hv
          (omega arith)
        ∙ unpack_loop-groups k (w / 128) len (i + 1) (v + w % 128 * 2 ^ by) (by + 7) rest
            (omega arith) (omega (arith, pow-suc 128 (suc k))) (omega arith) (omega arith)
            (omega arith)
        ∙ ap₂ (λ a b. ok (a, b)) (omega arith) (omega arith))
]

-- Reading back what the chain's serialisation writes for a number below 2 ^ 32: the value and the
-- length of its encoding, whatever follows, if `length` admits the encoding.
pub unpack_variant32-groups :
    (w len : ℕ) (rest : List ℕ)
    → w < 2 ^ 32
    → length (groups 4 w) ≤ len
    → unpack_variant32 (groups 4 w ++ rest) len ≡ ok (w, length (groups 4 w))
unfolding unpack_variant32
unpack_variant32-groups w len rest hw hl =
    ground (arith, unpack_loop-groups 4 w len 0 0 0 rest (omega arith) (omega arith))

-- A number of one group, whatever the length.
pub unpack_variant32_short :
    (n len : ℕ) (rest : List ℕ) → n < 128 → unpack_variant32 (n ∷ rest) len ≡ ok (n, 1)
unfolding unpack_variant32
unpack_variant32_short n len rest small =
    last_group n len 0 0 0 rest small (omega arith) (omega arith)
    ∙ ap₂ (λ a b. ok (a, b)) (omega arith) (omega arith)
