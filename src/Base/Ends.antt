-- ===== src/Base/Ends.antt =====
-- A run that does not run out of the model's fuel: the rules for each construct.
use Prim.Native.Nat.{ℕ}
use mathlib.Core.Path.{◌≡◌, refl}
use mathlib.Core.Bool.{Bool, true, false}
use mathlib.Core.List.{List}
use ledger_app.Base.Tests.{if◌then◌else◌}
use ledger_app.Base.Runs.{
  Outcome, ok, halted, overrun, stuck, ◌>>=◌, ledger_assert, read_at, read_bytes, write_bytes,
}

-- The run ends as the code does: it is not `stuck`.
pub data Ends {ℓ} {A : Type ℓ} : Outcome A → Type ℓ where
  ends_ok : (a : A) → Ends (ok a)
  ends_halted : Ends halted
  ends_overrun : Ends overrun

pub Ends-ne-stuck {ℓ} : {A : Type ℓ} {m : Outcome A} → Ends m → ¬ (m ≡ stuck)
Ends-ne-stuck (ends_ok a) e = cc
Ends-ne-stuck ends_halted e = cc
Ends-ne-stuck ends_overrun e = cc

pub Ends->>= {ℓ κ} :
    {A : Type ℓ} {B : Type κ} {m : Outcome A} {f : A → Outcome B}
    → Ends m
    → ((a : A) → Ends (f a))
    → Ends (m >>= f)
Ends->>= (ends_ok a) h = h a
Ends->>= ends_halted h = ends_halted
Ends->>= ends_overrun h = ends_overrun

-- The same, where what follows depends on how the value came about.
pub Ends->>=_eq {ℓ κ} :
    {A : Type ℓ} {B : Type κ} (m : Outcome A) {f : A → Outcome B}
    → Ends m
    → ((a : A) → m ≡ ok a → Ends (f a))
    → Ends (m >>= f)
Ends->>=_eq (ok a) e h = h a refl
Ends->>=_eq halted e h = ends_halted
Ends->>=_eq overrun e h = ends_overrun
Ends->>=_eq stuck e h = absurd (Ends-ne-stuck e refl)

pub Ends-if {ℓ} :
    {A : Type ℓ} (b : Bool) {x y : Outcome A} → Ends x → Ends y → Ends (if b then x else y)
Ends-if true p q = p
Ends-if false p q = q

pub Ends-assert : (b : Bool) → Ends (ledger_assert b)
Ends-assert true = ends_ok tt
Ends-assert false = ends_halted

pub Ends-read_bytes : (n : ℕ) (bytes : List ℕ) → Ends (read_bytes n bytes)
Ends-read_bytes n bytes = Ends-if _ (ends_ok _) ends_overrun

pub Ends-write_bytes : (i : ℕ) (bytes array : List ℕ) → Ends (write_bytes i bytes array)
Ends-write_bytes i bytes array = Ends-if _ (ends_ok _) ends_overrun

pub Ends-read_at : (bytes : List ℕ) (i : ℕ) → Ends (read_at bytes i)
Ends-read_at List.[] i = ends_overrun
Ends-read_at (List.◌∷◌ b bytes) ℕ.zero = ends_ok b
Ends-read_at (List.◌∷◌ b bytes) (ℕ.suc i) = Ends-read_at bytes i

pub ruleset ends = (
  ends_ok, ends_halted, ends_overrun, Ends->>=, Ends-if, Ends-assert, Ends-read_bytes,
  Ends-write_bytes, Ends-read_at,
)
