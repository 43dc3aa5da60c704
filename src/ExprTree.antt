-- ===== src/ExprTree.antt =====
-- algorithm/tree/app/expressionOperation/main.c and its stack.c: expression trees are built from
-- postfix notation, printed and evaluated. The array of the stack is the list of its elements, the top
-- first. Blanks, digits and `atoi` are those of the calculator in Postfix.
pub mod Meaning
pub mod Value
pub mod Build
pub mod Report
mod Tests
use code_snippet.Prelude.{
  ℕ, zero, suc, ◌+◌, Bool, true, false, not, ◌&&◌, ◌||◌, Option, none, some, List, [], ◌∷◌, ◌++◌, ℤ,
  pos, length, ◌+ℤ◌, ◌-ℤ◌, ◌*ℤ◌, ◌==ℤ◌, checked, leb, ◌==◌, ◌>>=◌, if◌then◌else◌,
}
use code_snippet.Prelude.Division.{int_div, int_mod}
use code_snippet.BinTree.{Tree, null, node, leaf, postorder, destroy}
use code_snippet.Postfix.{is_digit, is_negative, eof_byte, skip, atoi}

-- What is printed of a tree.
pub data Printed : Type 0 where
  num : ℤ → Printed
  sign : ℤ → Printed
  bracket_open bracket_close : Printed
  result : ℤ → Printed

abbrev pub is_sign : ℤ → Bool
is_sign x = x ==ℤ pos b'+' || x ==ℤ pos b'-' || x ==ℤ pos b'*' || x ==ℤ pos b'/' || x ==ℤ pos b'%'

unfoldable pub printf_data : ℤ → Printed
printf_data x = if is_sign x then sign x else num x

-- `while (isdigit(s[++i] = c = getchar()))`, where `room` elements of `s` are left behind `s[i]`.
-- The argument of `isdigit` is the `char`, which must not be negative but for EOF; what is compared
-- with EOF afterwards is `c`, an int, so that every byte is put back.
unfoldable pub collect : ℕ → List ℕ → Option (List ℕ × List ℕ)
collect zero cs = none
collect (suc room) [] = some ([], [])
collect (suc room) (c ∷ cs) =
    if is_digit c
    then (do (ds, rest) ← collect room cs; some (c ∷ ds, rest))
    else if is_negative c && not (c == eof_byte)
    then none
    else some ([], c ∷ cs)

-- `getop` on a buffer of 8 characters, after the blanks: what it returns, `none` for EOF and 0 for
-- NUMBER, what is in `s`, and the input that is left.
unfoldable pub next_token : List ℕ → Option (Option ℕ × List ℕ × List ℕ)
unfolding collect
next_token [] = some (none, [], [])
next_token (c ∷ cs) =
    if is_digit c
    then (do (ds, rest) ← collect 7 cs; some (some 0, c ∷ ds, rest))
    else some (some c, c ∷ [], cs)

unfoldable pub getop : List ℕ → Option (Option ℕ × List ℕ × List ℕ)
unfolding skip next_token
getop cs = next_token (skip cs)

abbrev pub is_null : Tree → Bool
is_null null = true
is_null (node x l r) = false

-- `inorder_fn` with `printf_data`; it reads through a null pointer where one child is missing.
unfoldable pub inorder_fn : Tree → Option (List Printed)
inorder_fn null = none
inorder_fn (node x l r) =
    let left = inorder_fn l in
    let right = inorder_fn r in
    if is_null l && is_null r then some (printf_data x ∷ []) else (do
      a ← left
      b ← right
      some (
          (bracket_open ∷ a)
          ++ ((bracket_close ∷ printf_data x ∷ bracket_open ∷ b) ++ (bracket_close ∷ []))))

unfoldable pub apply : ℤ → ℤ → ℤ → Option ℤ
apply x left right =
    if x ==ℤ pos b'+'
    then checked (left +ℤ right)
    else if x ==ℤ pos b'-'
    then checked (left -ℤ right)
    else if x ==ℤ pos b'*'
    then checked (left *ℤ right)
    else if x ==ℤ pos b'/'
    then int_div left right
    else if x ==ℤ pos b'%'
    then int_mod left right
    else some (pos 0)

unfoldable pub caculate : Tree → Option ℤ
unfolding apply
caculate null = none
caculate (node x l r) =
    let left = caculate l in
    let right = caculate r in
    if is_null l && is_null r then some x else (do a ← left; b ← right; apply x a b)

abbrev pub max_buf_size : ℕ
max_buf_size = 64

-- `push` and `pop` of stack.c.
unfoldable pub push : Tree → List Tree → List Tree
push t stack = if leb max_buf_size (length stack) then stack else t ∷ stack

unfoldable pub pop : List Tree → Tree × List Tree
pop [] = (null, [])
pop (t ∷ stack) = (t, stack)

pub record Machine : Type 0 where
  pub stack : List Tree
  pub roots : List Tree

-- The case of an operator.
unfoldable pub combine : ℕ → Machine → Machine
unfolding push pop
combine c m =
    let (right, stack₁) = pop m.stack in
    let (left, stack₂) = pop stack₁ in record m { stack = push (node (pos c) left right) stack₂ }

-- A newline ends a tree; `root` has room for eight.
unfoldable pub end_tree : Machine → Option Machine
unfolding pop
end_tree m =
    let (root, stack) = pop m.stack in
    if leb 8 (length m.roots)
    then none
    else some (record { stack = stack; roots = m.roots ++ (root ∷ []) })

-- The first loop of `main` on fuel. `alloc` says of what is left to read behind a token whether
-- the `malloc` for the token succeeds.
unfoldable pub loop : (alloc : List ℕ → Bool) → ℕ → List ℕ → Machine → Option Machine
unfolding getop
loop alloc zero cs m = none
loop alloc (suc fuel) cs m = do
  (read, s, rest) ← getop cs
  elim read [
    | none ↦ some m
    | some c ↦
        if c == 0
        then loop alloc fuel rest
            (if alloc rest then record m { stack = push (leaf true (atoi s)) m.stack } else m)
        else if is_sign (pos c)
        then loop alloc fuel rest (if alloc rest then combine c m else m)
        else if c == 10
        then (do m' ← end_tree m; loop alloc fuel rest m')
        else loop alloc fuel rest m
  ]

-- The body of the second loop: postorder, inorder and the result, and then the nodes are freed.
unfoldable pub report : Tree → Option (List Printed)
unfolding inorder_fn caculate
report root = do
  let post = (postorder (λ x out. out ++ (printf_data x ∷ [])) root []).1
  infix_form ← inorder_fn root
  v ← caculate root
  some (post ++ (infix_form ++ (result v ∷ [])))

unfoldable pub report_all : List Tree → Option (List Printed)
report_all [] = some []
report_all (root ∷ roots) = do first ← report root; rest ← report_all roots; some (first ++ rest)

unfoldable pub main : (alloc : List ℕ → Bool) → (fuel : ℕ) → List ℕ → Option (List Printed)
unfolding loop report_all
main alloc fuel cs = do
  m ← loop alloc fuel cs (record { stack = []; roots = [] })
  report_all m.roots
