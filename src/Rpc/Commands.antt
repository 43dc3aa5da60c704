-- ===== src/Rpc/Commands.antt =====
-- rpc_intf/src/rpc_cmd.c: the table of commands and `rpc_cmd_run`. The handlers only print their
-- names, so a call is recorded by its handler.
use code_snippet.Prelude.{
  ℕ, ◌≡◌, ◌≢◌, refl, Option, none, some, List, [], ◌∷◌, ℤ, ◌==◌, arith, if◌then◌else◌,
}
use code_snippet.Stack.Lifo.{success, failure}
use code_snippet.Rpc.Message.{Message}

pub data Handler : Type 0 where
  login exit get_server_num get_server_info : Handler
  attach_server detach_server switch_rights sol_data : Handler

-- `rpc_cmd_list`, up to the entry without a function.
abbrev pub rpc_cmd_list : List (Handler × ℕ)
rpc_cmd_list =
    (login, 0x00)
    ∷ (exit, 0x01)
    ∷ (get_server_num, 0x02)
    ∷ (get_server_info, 0x03)
    ∷ (attach_server, 0x04)
    ∷ (detach_server, 0x05)
    ∷ (switch_rights, 0x06)
    ∷ (sol_data, 0x0F)
    ∷ []

-- The `for` loop.
unfoldable pub find_handler : ℕ → List (Handler × ℕ) → Option Handler
find_handler cmd [] = none
find_handler cmd ((h, c) ∷ rest) = if c == cmd then some h else find_handler cmd rest

-- `rpc_cmd_run`: the status, the response, which is a copy of the request, and the handler called.
unfoldable pub rpc_cmd_run : Message → ℤ × Message × Option Handler
unfolding find_handler
rpc_cmd_run rq = elim (find_handler rq.cmd rpc_cmd_list) [
  | none ↦ (failure, rq, none)
  | some h ↦ (success, rq, some h)
]

-- The commands of rpc_msg.h.
abbrev pub code_of : Handler → ℕ
code_of login = 0
code_of exit = 1
code_of get_server_num = 2
code_of get_server_info = 3
code_of attach_server = 4
code_of detach_server = 5
code_of switch_rights = 6
code_of sol_data = 15

find-code_of : (h : Handler) → find_handler (code_of h) rpc_cmd_list ≡ some h
unfolding find_handler
find-code_of login = refl
find-code_of exit = refl
find-code_of get_server_num = refl
find-code_of get_server_info = refl
find-code_of attach_server = refl
find-code_of detach_server = refl
find-code_of switch_rights = refl
find-code_of sol_data = refl

find-unknown : (cmd : ℕ) → ((h : Handler) → cmd ≢ code_of h) → find_handler cmd rpc_cmd_list ≡ none
unfolding find_handler
find-unknown cmd ne = ground (
  arith,
  ne login,
  ne exit,
  ne get_server_num,
  ne get_server_info,
  ne attach_server,
  ne detach_server,
  ne switch_rights,
  ne sol_data,
)

-- A request is answered by the handler that rpc_msg.h gives its command to, with status 0; a
-- command that it does not name gives -1 and calls nothing. The response is a copy either way.
pub rpc_cmd_run_lem :
    (rq : Message)
    → ((h : Handler) → rq.cmd ≡ code_of h → rpc_cmd_run rq ≡ (success, rq, some h))
      × (((h : Handler) → rq.cmd ≢ code_of h) → rpc_cmd_run rq ≡ (failure, rq, none))
unfolding rpc_cmd_run
rpc_cmd_run_lem rq = (
  λ h e. ground (arith, find-code_of h, e),
  λ unknown. ground (arith, find-unknown rq.cmd unknown),
)
