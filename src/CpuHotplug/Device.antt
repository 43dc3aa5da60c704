-- ===== src/CpuHotplug/Device.antt =====
-- `cpuhp_qos_read` and `cpuhp_qos_write`: the bounds as two 32-bit words of the device. An `s32` is
-- its bit pattern. Whether a copy from or to user space faults is an argument.
use code_snippet.Prelude.{
  ℕ, ◌+◌, ◌≡◌, ◌⊎◌, ◌<ℤ◌, Bool, false, not, List, [], ◌∷◌, ℤ, pos, negsuc, ltb, ◌==◌, arith,
  if◌then◌else◌,
}
use code_snippet.CpuHotplug.{Status, wake_up}

abbrev pub einval : ℤ
einval = negsuc 21

abbrev pub efault : ℤ
efault = negsuc 13

abbrev pub enobufs : ℤ
enobufs = negsuc 104

-- The status, and the words that reached user space.
unfoldable pub qos_read : (fault₀ fault₁ : Bool) → (count ppos : ℕ) → Status → ℤ × List ℕ
qos_read fault₀ fault₁ count ppos s =
    if ltb count 8
    then (enobufs, [])
    else if not (ppos == 0)
    then (pos 0, [])
    else if fault₀
    then (efault, [])
    else if fault₁
    then (efault, s.min ∷ [])
    else (pos 8, s.min ∷ s.max ∷ [])

-- `word₀` and `word₁` are what user space holds in its buffer.
unfoldable pub qos_write :
    (fault₀ fault₁ : Bool) → (count ppos word₀ word₁ : ℕ) → Status → ℤ × Status
unfolding wake_up
qos_write fault₀ fault₁ count ppos word₀ word₁ s =
    if not (ppos == 0)
    then (enobufs, s)
    else if not (count == 8)
    then (einval, s)
    else if fault₀
    then (efault, s)
    else if fault₁
    then (efault, s)
    else (pos count, wake_up (record s { min = word₀; max = word₁ }))

-- A write is all or nothing: it either takes both words, wakes the thread and returns the count of
-- its bytes, which is 8, or it returns a negative status and changes nothing. A read at the start of
-- the device, of at least 8 bytes and without a fault, gives back both words.
pub read-write :
    (fault₀ fault₁ : Bool) (count ppos word₀ word₁ size : ℕ) (s : Status)
    → ltb size 8 ≡ false
    → let (status, t) = qos_write fault₀ fault₁ count ppos word₀ word₁ s in
      ((status ≡ pos 8)
        × (qos_read false false size 0 t ≡ (pos 8, word₀ ∷ word₁ ∷ []))
        × (t.woken ≡ s.woken + 1))
      ⊎ ((t ≡ s) × (status <ℤ pos 0))
unfolding qos_read qos_write
read-write fault₀ fault₁ count ppos word₀ word₁ size s room = ground arith
