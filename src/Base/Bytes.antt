-- ===== src/Base/Bytes.antt =====
-- The value of bytes in memory, lowest first.
use Prim.Native.Nat.{ℕ, zero, suc, ◌^◌, ◌<◌}
use mathlib.Core.Path.{◌≡◌}
use mathlib.Core.List.{List, [], ◌∷◌, ◌++◌}
use ledger_app.Base.Lists.{length, take, replicate}
use ledger_app.Base.Words.{IsByte, IsU64, le_value, All}
use native.Mathlib.Nat.{pow-suc}
use native.Mathlib.Omega.{arith}

pub All-take {ℓ κ} :
    {A : Type ℓ} (P : A → Type κ) (n : ℕ) (xs : List A) → All P xs → All P (take n xs)
All-take P zero xs h = tt
All-take P (suc n) [] h = tt
All-take P (suc n) (x ∷ xs) (h, hs) = (h, All-take P n xs hs)

pub All-append {ℓ κ} :
    {A : Type ℓ} (P : A → Type κ) (xs ys : List A) → All P xs → All P ys → All P (xs ++ ys)
All-append P [] ys h k = k
All-append P (x ∷ xs) ys (h, hs) k = (h, All-append P xs ys hs k)

pub zeros-IsByte : (n : ℕ) → All IsByte (replicate n 0)
zeros-IsByte zero = tt
zeros-IsByte (suc n) = (omega arith, zeros-IsByte n)

le_value_bound : (bytes : List ℕ) → All IsByte bytes → le_value bytes < 256 ^ length bytes
le_value_bound [] h = omega arith
le_value_bound (b ∷ bytes) (h, hs) =
    omega (arith, le_value_bound bytes hs, pow-suc 256 (length bytes))

pub le_value-IsU64 : (bytes : List ℕ) → All IsByte bytes → length bytes ≡ 8 → IsU64 (le_value bytes)
le_value-IsU64 bytes h e = rw e at (le_value_bound bytes h)
