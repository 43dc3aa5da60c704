-- ===== src/Rpc/Intf.antt =====
-- rpc_intf/intf/rpc_intf.c: opening and closing the socket, and addresses. The results of the
-- system's calls are arguments, and so are its conversions of byte order.
use code_snippet.Prelude.{
  ℕ, ◌+◌, ◌-◌, ◌≡◌, ◌⊎◌, inl, inr, refl, Bool-cases, Bool, true, false, Option, none, some, ℤ, pos,
  ltb_ℤ, ◌==◌, arith, if◌then◌else◌,
}
use code_snippet.Rpc.Message.{e_ok}

-- `rpc_intf_t`
pub record Intf : Type 0 where
  pub fd : ℤ
  pub oflag : ℕ

abbrev pub oflag_server : ℕ
oflag_server = 1

-- What the process holds: allocated interfaces and open sockets. `bound` and `connected` count the
-- calls of `bind` and `connect`.
pub record Held : Type 0 where
  pub memory : ℕ
  pub sockets : ℕ
  pub bound : ℕ
  pub connected : ℕ

-- `fd` is what `socket` returns. The results of `bind` and `connect` are not read.
unfoldable pub rpc_intf_open : (malloc : Bool) → (fd : ℤ) → (oflag : ℕ) → Held → Option Intf × Held
rpc_intf_open malloc fd oflag h =
    if malloc
    then (if ltb_ℤ fd (pos 0)
        then (none, h)
        else (let h' : Held = record h { memory = h.memory + 1; sockets = h.sockets + 1 } in
            let intf : Intf = record { fd = fd; oflag = oflag } in
            if oflag == oflag_server
            then (some intf, record h' { bound = h'.bound + 1 })
            else (some intf, record h' { connected = h'.connected + 1 })))
    else (none, h)

-- A null pointer is read through.
unfoldable pub rpc_intf_close : Option Intf → Held → Option (ℤ × Held)
rpc_intf_close none h = none
rpc_intf_close (some intf) h =
    some (e_ok, record h { memory = h.memory - 1; sockets = h.sockets - 1 })

-- `rpc_addr_t`: the members that `struct sockaddr_in` gives names to, and the length.
pub record Addr : Type 0 where
  pub sin_family : ℕ
  pub s_addr : ℕ
  pub sin_port : ℕ
  pub len : ℕ

module _ (htonl ntohl htons ntohs : ℕ → ℕ) where
  -- `AF_INET` and the size of `struct sockaddr`.
  unfoldable pub rpc_addr_pack : (host port : ℕ) → ℤ × Addr
  rpc_addr_pack host port =
      (e_ok, record { sin_family = 2; s_addr = htonl host; sin_port = htons port; len = 16 })

  -- The status, the host and the port.
  unfoldable pub rpc_addr_unpack : Addr → ℤ × ℕ × ℕ
  rpc_addr_unpack a = (e_ok, ntohl a.s_addr, ntohs a.sin_port)

  -- Where the conversions of byte order undo each other, an address that is packed has its host
  -- and its port back when it is unpacked.
  pub rpc_addr_unpack-pack :
      (host port : ℕ)
      → ntohl (htonl host) ≡ host
      → ntohs (htons port) ≡ port
      → rpc_addr_unpack (rpc_addr_pack host port).1 ≡ (e_ok, host, port)
  unfolding rpc_addr_unpack rpc_addr_pack
  rpc_addr_unpack-pack host port h p = rw (h, p) refl

-- What an open and the close after it leave.
abbrev pub IsReturned : Held → Option Intf × Held → Type 0
IsReturned h (opened, h') =
    ((opened ≡ none) × (h' ≡ h))
    ⊎ ((h'' : Held) × (rpc_intf_close opened h' ≡ some (e_ok, h''))
        × (h''.memory ≡ h.memory)
        × (h''.sockets ≡ h.sockets))

closed :
    (intf : Intf) (h h' : Held)
    → h'.memory ≡ h.memory + 1
    → h'.sockets ≡ h.sockets + 1
    → IsReturned h (some intf, h')
unfolding rpc_intf_close
closed intf h h' m s = inr (
  record h' { memory = h'.memory - 1; sockets = h'.sockets - 1 },
  refl,
  omega (arith, m),
  omega (arith, s),
)

-- A failed open holds nothing, and a close after an open gives back its memory and its socket.
pub rpc_intf_open-close :
    (malloc : Bool) (fd : ℤ) (oflag : ℕ) (h : Held) → IsReturned h (rpc_intf_open malloc fd oflag h)
unfolding rpc_intf_open
rpc_intf_open-close false fd oflag h = inl (refl, refl)
rpc_intf_open-close true fd oflag h = elim (Bool-cases (ltb_ℤ fd (pos 0))) [
  | inl bad ↦ rw bad (inl (refl, refl))
  | inr good ↦ elim (Bool-cases (oflag == oflag_server)) [
    | inl server ↦ rw (good, server) (closed _ h _ refl refl)
    | inr client ↦ rw (good, client) (closed _ h _ refl refl)
  ]
]
