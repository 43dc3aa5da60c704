-- ===== src/Heap.antt =====
-- algorithm/list/single_linklist/single_linklist.c and algorithm/stack/linkstack/linkstack.c: the
-- nodes of both lists, in a heap of their own. A node never moves, and the address of a freed
-- node is not given out again. `value` is the field `data` of the source.
pub mod Chains
use code_snippet.Prelude.{
  ℕ, zero, suc, ◌+◌, Bool, true, false, Option, none, some, ℤ, ◌==◌, if◌then◌else◌,
}

-- What a run ends in: a result, a step that C leaves undefined, or no result within the fuel.
pub data Outcome {ℓ} (A : Type ℓ) : Type ℓ where
  done : A → Outcome A
  crash : Outcome A
  out_of_fuel : Outcome A

infixl 5 ◌>>=◌
abbrev pub ◌>>=◌ {ℓ κ} : {A : Type ℓ} {B : Type κ} → Outcome A → (A → Outcome B) → Outcome B
done a >>= f = f a
crash >>= f = crash
out_of_fuel >>= f = out_of_fuel

-- `node_t *`
abbrev pub Ptr : Type 0
Ptr = Option ℕ

pub record Node : Type 0 where
  pub value : ℤ
  pub next : Ptr

pub record Heap : Type 0 where
  pub cells : ℕ → Option Node
  pub fresh : ℕ

unfoldable pub put : ℕ → Option Node → Heap → Heap
put a n h = record h { cells = λ b. if b == a then n else h.cells b }

-- `node_alloc`; `allocated` says whether `malloc` succeeds.
unfoldable pub node_alloc : (allocated : Bool) → ℤ → Heap → Ptr × Heap
node_alloc false v h = (none, h)
node_alloc true v h = (
  some h.fresh,
  record (put h.fresh (some (record { value = v; next = none })) h) { fresh = h.fresh + 1 },
)

unfoldable pub load : Ptr → Heap → Outcome Node
load none h = crash
load (some a) h = elim (h.cells a) [ none ↦ crash | some n ↦ done n ]

-- A write of a whole node, the fields that the source does not write as they were.
unfoldable pub store : Ptr → Node → Heap → Outcome Heap
store none n h = crash
store (some a) n h = elim (h.cells a) [ none ↦ crash | some old ↦ done (put a (some n) h) ]

-- `node_free`: nothing for NULL, a second `free` of a node crashes.
unfoldable pub node_free : Ptr → Heap → Outcome Heap
node_free none h = done h
node_free (some a) h = elim (h.cells a) [ none ↦ crash | some old ↦ done (put a none h) ]
