-- ===== src/Base/Runs.antt =====
-- How a run of the C code ends, and the reads and writes that can end it.
use Prim.Native.Nat.{ℕ, ◌+◌, ◌≤◌}
use mathlib.Core.Path.{◌≡◌, refl, sym, ap, ◌∙◌}
use mathlib.Core.Bool.{Bool, true, false}
use mathlib.Core.List.{List, [], ◌∷◌}
use mathlib.Core.Option.{none, some}
use ledger_app.Base.Tests.{leb, if◌then◌else◌}
use ledger_app.Base.Lists.{
  length, get_elem?, take, splice, length-splice, length-take, take-append_all, drop,
}
use native.Mathlib.Omega.{arith}

-- `ok` is a return. `halted` is a failed LEDGER_ASSERT, which ends the application. `overrun` is a
-- read or a write outside an array, where C leaves the behaviour undefined. `stuck` is no run of
-- the code: the fuel of a loop of the model ran out.
pub data Outcome {ℓ} (A : Type ℓ) : Type ℓ where
  ok : A → Outcome A
  halted overrun stuck : Outcome A

infixl 5 ◌>>=◌ ◌>>◌
abbrev pub ◌>>=◌ {ℓ κ} : {A : Type ℓ} {B : Type κ} → Outcome A → (A → Outcome B) → Outcome B
ok a >>= f = f a
halted >>= f = halted
overrun >>= f = overrun
stuck >>= f = stuck

abbrev pub ◌>>◌ {ℓ} : {B : Type ℓ} → Outcome (Unit {0}) → Outcome B → Outcome B
m >> k = m >>= λ _. k

-- LEDGER_ASSERT
abbrev pub ledger_assert : Bool → Outcome (Unit {0})
ledger_assert true = ok tt
ledger_assert false = halted

-- `buffer[i]`
abbrev pub read_at : List ℕ → ℕ → Outcome ℕ
read_at buffer i = elim (get_elem? buffer i) [ none ↦ overrun | some b ↦ ok b ]

-- `n` bytes from the pointer on; the list is the memory from there to the end of its array.
abbrev pub read_bytes : ℕ → List ℕ → Outcome (List ℕ)
read_bytes n buffer = if leb n (length buffer) then ok (take n buffer) else overrun

-- `memmove(array + i, bytes, length(bytes))`
abbrev pub write_bytes : ℕ → List ℕ → List ℕ → Outcome (List ℕ)
write_bytes i bytes array =
    if leb (i + length bytes) (length array) then ok (splice i bytes array) else overrun

-- A sequence that returns `z` has a first part that returns.
pub >>=-eq-ok {ℓ κ} :
    {A : Type ℓ} {B : Type κ} (first : Outcome A) (next : A → Outcome B) {z : B}
    → first >>= next ≡ ok z
    → (a : A) × (first ≡ ok a) × (next a ≡ ok z)
>>=-eq-ok halted next h = cc
>>=-eq-ok overrun next h = cc
>>=-eq-ok stuck next h = cc
>>=-eq-ok (ok a) next h = (a, refl, h)

pub ok-injective {ℓ} : {A : Type ℓ} {a b : A} → ok a ≡ ok b → a ≡ b
ok-injective h = cc

pub length-write_bytes :
    (i : ℕ) (bytes array : List ℕ) {array' : List ℕ}
    → write_bytes i bytes array ≡ ok array'
    → length array' ≡ length array
length-write_bytes i bytes array e = ground (arith, length-splice i bytes array)

pub length-read_bytes :
    (n : ℕ) (bytes : List ℕ) {read : List ℕ} → read_bytes n bytes ≡ ok read → length read ≡ n
length-read_bytes n bytes e = ground (arith, length-take n bytes)

pub stuck_not_ok {ℓ} : {A : Type ℓ} {a : A} → stuck ≡ ok a → ⊥
stuck_not_ok h = cc

-- A run that is known to return, or to overrun, in front of another.
pub after_ok {ℓ κ} :
    {A : Type ℓ} {B : Type κ} {m : Outcome A} {a : A} (f : A → Outcome B)
    → m ≡ ok a
    → (m >>= f) ≡ f a
after_ok f e = rw e

pub after_overrun {ℓ κ} :
    {A : Type ℓ} {B : Type κ} {m : Outcome A} (f : A → Outcome B)
    → m ≡ overrun
    → (m >>= f) ≡ overrun
after_overrun f e = rw e

pub read_at_some : (bytes : List ℕ) → 1 ≤ length bytes → (b : ℕ) × (read_at bytes 0 ≡ ok b)
read_at_some [] h = elim h [ ]
read_at_some (b ∷ bytes) h = (b, refl)

pub read_bytes-take :
    (n : ℕ) (source : List ℕ) {bytes : List ℕ}
    → read_bytes n source ≡ ok bytes
    → take n source ≡ bytes
read_bytes-take n source e = ground arith

pub write_bytes-splice :
    (i : ℕ) (bytes array : List ℕ) {array' : List ℕ}
    → write_bytes i bytes array ≡ ok array'
    → splice i bytes array ≡ array'
write_bytes-splice i bytes array e = ground arith

-- Bytes that were read at one place and written to the start of an array.
pub write_bytes_front :
    (n : ℕ) (bytes array array' source : List ℕ)
    → read_bytes n source ≡ ok bytes
    → write_bytes 0 bytes array ≡ ok array'
    → take n array' ≡ take n source
write_bytes_front n bytes array array' source r w =
    let front = read_bytes-take n source r in
    let size = length-read_bytes n source r in
    let written = write_bytes-splice 0 bytes array w in
    ap (take n) (sym written)
    ∙ take-append_all n bytes (drop (0 + length bytes) array) size
    ∙ sym front
