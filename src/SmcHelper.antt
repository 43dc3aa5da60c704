-- ===== src/SmcHelper.antt =====
-- kernel_module/smc/smc_helper.c: a device that passes commands on to the firmware, and keeps the
-- results in a queue until they are read. A word has 8 bytes.
pub mod Lifetime
pub mod Queue
pub mod Balance
mod Tests
use code_snippet.Prelude.{
  ℕ, suc, ◌+◌, Bool, true, false, not, Option, none, some, List, [], ◌∷◌, ◌++◌, ℤ, pos, ltb, ◌==◌,
  if◌then◌else◌,
}
use code_snippet.Qos.Errors.{enomem, efault, einval}

-- `cmd_buf` and `result_buf` of `struct smc_cmd_buf`.
abbrev pub Command : Type 0
Command = List ℕ

pub record Result : Type 0 where
  pub a0 : ℕ
  pub a1 : ℕ
  pub a2 : ℕ
  pub a3 : ℕ

abbrev pub command_size : ℕ
command_size = 64

abbrev pub result_size : ℕ
result_size = 32

-- `queue` is the list at `cmdb_head`; `lost` counts the buffers that are allocated and in no list.
pub record Device : Type 0 where
  pub queue : List Result
  pub lost : ℕ

-- `smc_write`; `smc` is what the firmware answers.
unfoldable pub write_device :
    (smc : Command → Result) → (kzalloc fault : Bool) → (count : ℕ) → Command → Device → ℤ × Device
write_device smc kzalloc fault count command d =
    if not (count == command_size)
    then (einval, d)
    else if not kzalloc
    then (enomem, d)
    else if fault
    then (efault, record d { lost = d.lost + 1 })
    else (pos count, record d { queue = d.queue ++ (smc command ∷ []) })

-- The loop of `smc_read`: the status, the result at the start of the buffer of user space, and the
-- device. `fault` says which copies fail; after such a copy nothing is known of the buffer.
unfoldable pub read_from :
    (fault : ℕ → Bool)
    → (count turn bytes_read : ℕ) → (buf : Option Result) → (lost : ℕ) → List Result
    → ℤ × Option Result × Device
read_from fault count turn bytes_read buf lost [] =
    (pos bytes_read, buf, record { queue = []; lost = lost })
read_from fault count turn bytes_read buf lost (r ∷ rs) =
    if ltb count (bytes_read + result_size)
    then (pos bytes_read, buf, record { queue = r ∷ rs; lost = lost })
    else if fault turn
    then (efault, none, record { queue = r ∷ rs; lost = lost })
    else read_from fault count (suc turn) (bytes_read + result_size) (some r) (lost + 1) rs

-- `smc_read`, into a buffer of which nothing is known.
unfoldable pub read_device : (fault : ℕ → Bool) → (count : ℕ) → Device → ℤ × Option Result × Device
read_device fault count d = read_from fault count 0 0 none d.lost d.queue
