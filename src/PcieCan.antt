-- ===== src/PcieCan.antt =====
-- hardware/pcie_sysfs_can.c: the address of a memory region from the file in sysfs, and CAN messages
-- by the registers of a device. The registers are an interface, by their distance in words.
pub mod Messages
pub mod Address
use code_snippet.Prelude.{
  ℕ, zero, suc, ◌+◌, ◌*◌, ◌/◌, ◌%◌, ◌^◌, Bool, Option, none, some, List, [], ◌∷◌, ltb, ◌==◌, ◌>>=◌,
  if◌then◌else◌,
}
use code_snippet.Prelude.Arrays.{get_elem?}
use code_snippet.Prelude.Strings.{Str}
use code_snippet.Config.{fgets, string_in}

-- What a device does when a register is read or written, and while the caller sleeps.
pub record BarApi : Type 1 where
  pub State : Type 0
  pub read : ℕ → State → ℕ
  pub write : ℕ → ℕ → State → State
  pub sleep : State → State

abbrev pub ctl_reg : ℕ
ctl_reg = 16

abbrev pub send_reg1 : ℕ
send_reg1 = 17

abbrev pub send_reg2 : ℕ
send_reg2 = 18

abbrev pub recv_reg1 : ℕ
recv_reg1 = 19

abbrev pub recv_reg2 : ℕ
recv_reg2 = 20

abbrev pub can_ctl_stop : ℕ
can_ctl_stop = 0

abbrev pub can_ctl_send : ℕ
can_ctl_send = 1

abbrev pub can_ctl_recv : ℕ
can_ctl_recv = 2

-- Four bytes from `k` on as a word. A shift of a byte from 128 on by 24 leaves the range of `int`.
unfoldable pub word_at : List ℕ → (k : ℕ) → Option ℕ
word_at bytes k = do
  b0 ← get_elem? bytes k
  b1 ← get_elem? bytes (k + 1)
  b2 ← get_elem? bytes (k + 2)
  b3 ← get_elem? bytes (k + 3)
  if ltb b3 128 then some (b0 + b1 * 2 ^ 8 + b2 * 2 ^ 16 + b3 * 2 ^ 24) else none

unfoldable pub bytes_of : ℕ → List ℕ → List ℕ
bytes_of w rest = w % 256 ∷ w / 2 ^ 8 % 256 ∷ w / 2 ^ 16 % 256 ∷ w / 2 ^ 24 % 256 ∷ rest

module _ (api : BarApi) where
  open api use {State, read, write, sleep}

  unfoldable pub can_send : (id : ℕ) → List ℕ → State → Option State
  unfolding word_at
  can_send id bytes s = do
    w1 ← word_at bytes 0
    w2 ← word_at bytes 4
    let s1 = write send_reg1 w1 s
    let s2 = write send_reg2 w2 s1
    let s3 = write ctl_reg (can_ctl_send * 2 ^ 12 + id % 2 ^ 12) s2
    some (write ctl_reg (can_ctl_stop * 2 ^ 12 + read ctl_reg s3 % 2 ^ 12) s3)

  -- The loop: the bytes of each round, the last of which stay in `data`.
  unfoldable pub recv_rounds : (rounds : ℕ) → State → List (List ℕ) × State
  unfolding bytes_of
  recv_rounds zero s = ([], s)
  recv_rounds (suc rounds) s =
      let s' = sleep s in
      let (later, end) = recv_rounds rounds s' in
      (bytes_of (read recv_reg1 s') (bytes_of (read recv_reg2 s') []) ∷ later, end)

  unfoldable pub can_recv : (id : ℕ) → State → List (List ℕ) × State
  unfolding recv_rounds
  can_recv id s =
      let (seen, s') = recv_rounds 9 (write ctl_reg (can_ctl_recv * 2 ^ 12 + id % 2 ^ 12) s) in
      (seen, write ctl_reg (can_ctl_stop * 2 ^ 12 + read ctl_reg s' % 2 ^ 12) s')

-- What is in `buf` after some rounds of `fgets`; at the end of the file it is cleared.
unfoldable pub last_line : (rounds : ℕ) → List ℕ → List ℕ → List ℕ
last_line zero buf cs = buf
last_line (suc rounds) buf cs = let (line, rest) = fgets 255 cs in last_line rounds line rest

-- The string before the first blank.
unfoldable pub before_blank : Str → Option Str
before_blank [] = none
before_blank (c ∷ cs) =
    let rest = before_blank cs in if c == 32 then some [] else (do first ← rest; some (c ∷ first))

-- The inner result is the pointer. A file that cannot be opened is a null pointer, which the test
-- for a negative number lets through. `strtoll` is the conversion to base 16.
unfoldable pub get_pci_bar_addr :
    (strtoll : Str → ℕ) → (resource : Option (List ℕ)) → (barno : ℕ) → Option (Option ℕ)
unfolding last_line before_blank
get_pci_bar_addr strtoll none barno = none
get_pci_bar_addr strtoll (some cs) barno =
    some (do first ← before_blank (string_in (last_line (barno + 1) [] cs)); some (strtoll first))
