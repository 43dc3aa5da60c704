-- ===== src/Prelude/Memory.antt =====
-- What the calls on bytes of the C library do to a memory.
use code_snippet.Prelude.Lists.{length}
use Prim.Native.Nat.{ℕ, zero, suc, ◌≤◌}
use mathlib.Core.Path.{◌≡◌, refl, ap}
use mathlib.Core.Option.{Option, none, some}
use mathlib.Core.List.{List, [], ◌∷◌}
use native.Mathlib.Omega.{arith}
use code_snippet.Prelude.Crash.{◌>>=◌}

-- What `memcpy` reads: `n` elements from the start of a memory.
unfoldable pub read_bytes : ℕ → List ℕ → Option (List ℕ)
read_bytes zero memory = some []
read_bytes (suc n) [] = none
read_bytes (suc n) (b ∷ memory) = do bs ← read_bytes n memory; some (b ∷ bs)

-- What `memcpy` writes: the bytes over the start of a memory.
unfoldable pub write_bytes : List ℕ → List ℕ → Option (List ℕ)
write_bytes [] memory = some memory
write_bytes (b ∷ bs) [] = none
write_bytes (b ∷ bs) (old ∷ memory) = do rest ← write_bytes bs memory; some (b ∷ rest)

pub read_bytes-length :
    (n : ℕ) (memory : List ℕ)
    → n ≤ length memory
    → (bs : List ℕ) × (read_bytes n memory ≡ some bs) × (length bs ≡ n)
unfolding read_bytes
read_bytes-length zero memory h = ([], refl, refl)
read_bytes-length (suc n) [] h = absurd (omega (arith, h))
read_bytes-length (suc n) (b ∷ memory) h =
    let (bs, reads, size) = read_bytes-length n memory (omega (arith, h)) in
    (b ∷ bs, rw reads refl, ap suc size)

pub write_bytes-length :
    (bs memory : List ℕ)
    → length bs ≤ length memory
    → (out : List ℕ) × (write_bytes bs memory ≡ some out) × (length out ≡ length memory)
unfolding write_bytes
write_bytes-length [] memory h = (memory, refl, refl)
write_bytes-length (b ∷ bs) [] h = absurd (omega (arith, h))
write_bytes-length (b ∷ bs) (old ∷ memory) h =
    let (out, writes, size) = write_bytes-length bs memory (omega (arith, h)) in
    (b ∷ out, rw writes refl, ap suc size)
