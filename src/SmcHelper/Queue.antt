-- ===== src/SmcHelper/Queue.antt =====
-- Results are read in the order of the commands.
use code_snippet.Prelude.{
  ℕ, zero, suc, ◌+◌, ◌*◌, ◌-◌, ◌≡◌, ◌≤◌, ◌<◌, refl, ap, sym, ◌∙◌, append_assoc, append-nil, Bool,
  true, false, Option, none, some, List, [], ◌∷◌, ◌++◌, map, pos, negsuc, ltb, ◌==◌, if◌then◌else◌,
  length, arith,
}
use mathlib.Core.Path.{subst}
use code_snippet.SmcHelper.{
  Command, Result, command_size, result_size, Device, write_device, read_from, read_device,
}

-- The last result of some, or the given one.
abbrev pub last : Option Result → List Result → Option Result
last buf [] = buf
last buf (r ∷ rs) = last (some r) rs

-- No room for another result, or none left.
abbrev pub Stops : ℕ → List Result → Type 0
Stops room [] = Unit
Stops room (r ∷ rs) = room < result_size

read_from-eq :
    (taken rest : List Result) (fault : ℕ → Bool) (count turn start total : ℕ) (buf : Option Result)
    (lost lost' : ℕ)
    → ((k : ℕ) → fault k ≡ false)
    → total ≡ start + result_size * length taken
    → lost' ≡ lost + length taken
    → total ≤ count
    → Stops (count - total) rest
    → read_from fault count turn start buf lost (taken ++ rest)
      ≡ (pos total, last buf taken, record { queue = rest; lost = lost' })
unfolding read_from
read_from-eq [] [] fault count turn start total buf lost lost' fine t l room stops =
    ground (arith, t, l)
read_from-eq [] (r ∷ rest) fault count turn start total buf lost lost' fine t l room stops =
    let full : ltb count (start + result_size) ≡ true = ground (arith, t, room, stops) in
    rw full (ground (arith, t, l))
read_from-eq (r ∷ taken) rest fault count turn start total buf lost lost' fine t l room stops =
    let enough : ltb count (start + result_size) ≡ false = ground (arith, t, room) in
    rw (enough, fine turn)
      (read_from-eq taken rest fault count (suc turn) (start + result_size) total (some r)
        (lost + 1) lost' fine (omega (arith, t)) (omega (arith, l)) room stops)

-- A read without a fault takes the results off the queue that its buffer has room for, and returns
-- their size; but each was copied to the start of the buffer, where only the last of them is left.
-- Their buffers in the kernel are lost.
pub read-last :
    (taken rest : List Result) (fault : ℕ → Bool) (count lost : ℕ)
    → ((k : ℕ) → fault k ≡ false)
    → result_size * length taken ≤ count
    → Stops (count - result_size * length taken) rest
    → read_device fault count (record { queue = taken ++ rest; lost = lost }) ≡ (
      pos (result_size * length taken),
      last none taken,
      record { queue = rest; lost = lost + length taken },
    )
unfolding read_device
read-last taken rest fault count lost fine room stops =
    read_from-eq taken rest fault count 0 0 (result_size * length taken) none lost
      (lost + length taken) fine (omega arith) refl room stops

-- One write per command, as long as they go through.
abbrev pub write_all : (Command → Result) → List Command → Device → Option Device
write_all smc [] d = some d
write_all smc (c ∷ cs) d =
    let (status, d') = write_device smc true false command_size c d in
    let rest = write_all smc cs d' in
    elim status [ pos n ↦ if n == command_size then rest else none | negsuc n ↦ none ]

-- What some reads give, each into a buffer of its own with `count` bytes.
abbrev pub read_all : (reads count : ℕ) → Device → List (Option Result) × Device
read_all zero count d = ([], d)
read_all (suc n) count d =
    let (status, buf, d') = read_device (λ k. false) count d in
    let (bufs, d'') = read_all n count d' in (buf ∷ bufs, d'')

length-answers : (smc : Command → Result) (cs : List Command) → length (map smc cs) ≡ length cs
length-answers smc [] = refl
length-answers smc (c ∷ cs) = ap suc (length-answers smc cs)

write_all-eq :
    (smc : Command → Result) (cs : List Command) (d : Device)
    → write_all smc cs d ≡ some (record d { queue = d.queue ++ map smc cs })
unfolding write_device
write_all-eq smc [] d = ap (λ q. some (record d { queue = q })) (sym (append-nil d.queue))
write_all-eq smc (c ∷ cs) d =
    write_all-eq smc cs (record d { queue = d.queue ++ (smc c ∷ []) })
    ∙ ap (λ q. some (record d { queue = q })) (append_assoc d.queue (smc c ∷ []) (map smc cs))

one-Stops :
    (rs : List Result) (room : ℕ)
    → room < result_size
    → Stops (result_size + room - result_size * 1) rs
one-Stops [] room h = tt
one-Stops (r ∷ rs) room h = omega (arith, h)

read_one :
    (r : Result) (rs : List Result) (room lost : ℕ)
    → room < result_size
    → read_device (λ k. false) (result_size + room) (record { queue = r ∷ rs; lost = lost })
      ≡ (pos result_size, some r, record { queue = rs; lost = lost + 1 })
read_one r rs room lost h =
    read-last (r ∷ []) rs (λ k. false) (result_size + room) lost (λ k. refl) (omega arith)
      (one-Stops rs room h)

read_all-eq :
    (rs : List Result) (room lost : ℕ)
    → room < result_size
    → read_all (length rs) (result_size + room) (record { queue = rs; lost = lost })
      ≡ (map some rs, record { queue = []; lost = lost + length rs })
read_all-eq [] room lost h = ap (λ n. ([], record { queue = []; lost = n })) (omega arith)
read_all-eq (r ∷ rs) room lost h =
    let total : lost + 1 + length rs ≡ lost + length (r ∷ rs) = omega arith in
    rw (read_one r rs room lost h, read_all-eq rs room (lost + 1) h, total) refl

read_answers :
    (smc : Command → Result) (cs : List Command) (room lost : ℕ)
    → room < result_size
    → read_all (length cs) (result_size + room) (record { queue = map smc cs; lost = lost })
      ≡ (map some (map smc cs), record { queue = []; lost = lost + length cs })
read_answers smc cs room lost h =
    let same = length-answers smc cs in
    subst
      (λ n.
        read_all n (result_size + room) (record { queue = map smc cs; lost = lost })
        ≡ (map some (map smc cs), record { queue = []; lost = lost + n }))
      same (read_all-eq (map smc cs) room lost h)

-- A device with an empty queue, some commands written, and as many reads of one result each: all
-- writes go through, every read gives the answer to one command, in the order of the commands, and
-- the queue is empty again.
pub write-read :
    (smc : Command → Result) (cs : List Command) (room lost : ℕ)
    → room < result_size
    → (d : Device) × (write_all smc cs (record { queue = []; lost = lost }) ≡ some d)
      × (read_all (length cs) (result_size + room) d
          ≡ (map some (map smc cs), record { queue = []; lost = lost + length cs }))
write-read smc cs room lost h = (
  record { queue = map smc cs; lost = lost },
  write_all-eq smc cs (record { queue = []; lost = lost }),
  read_answers smc cs room lost h,
)
